-- ===== src/Appserver/Lifecycles.antt =====
-- gateway/internal/appserver/dispatcher.go: what a response delivers, and the end of reading.
use codex_runtime.Base.{
  ℕ, ◌+◌, ◌<◌, ◌≡◌, ◌≢◌, refl, Text, text_eq_iff, true, false, Option, none, some, List, [], ◌∷◌,
  ◌++◌, Map, lookup, remove, count_values, length, arith, ok, err, count-remove, ◌↔◌,
}
use codex_runtime.Appserver.Rpc.{Codec, TrimsIds, RpcMessage, id_key, is_empty}
use codex_runtime.Appserver.Dispatcher.{
  DispatchError, protocol_mismatch, PendingCall, CallResult, Dispatcher, fail_each, send_result,
  close_with_error, new_dispatcher, dispatcher_closed,
}
use codex_runtime.Appserver.Responses.{
  result_of, handle_response, deliver, breaks_protocol, confirm_provisional_id, confirmed_id,
}
use codex_runtime.Appserver.Requests.{handle_message, read_loop, Line, unless_failed}
use codex_runtime.Appserver.Steps.{Step, steps}
use codex_runtime.Appserver.Accounts.{
  IsSettled, goes_to, times, id_bound, close_with_error-IsSettled,
}
use codex_runtime.Appserver.Conservation.{handle_message-IsSettled, steps-IsSettled}

send_result_self :
    (c : ℕ) (r : CallResult) (results : ℕ → List CallResult)
    → send_result c r results c ≡ results c ++ (r ∷ [])
unfolding send_result
send_result_self c r results = ground arith

fail_each-others :
    (e : DispatchError) (calls : Map PendingCall) (c : ℕ) (results : ℕ → List CallResult)
    → count_values (goes_to c) calls ≡ 0
    → fail_each e calls results c ≡ results c
unfolding fail_each count_values send_result
fail_each-others e [] c results h = refl
fail_each-others e ((k, call) ∷ calls) c results h =
    ground (arith, fail_each-others e calls c (send_result call.result (err e) results))

close_with_error-others :
    (e : DispatchError) (c : ℕ) (d : Dispatcher)
    → count_values (goes_to c) d.pending ≡ 0
    → (close_with_error e d).results c ≡ d.results c
unfolding close_with_error
close_with_error-others e c d h = ground (arith, fail_each-others e d.pending c d.results h)

-- What the account of its channel says of a call that is pending.
record Waits (call : PendingCall) (rest : Map PendingCall) (d : Dispatcher) : Type 0 where
  alone : count_values (goes_to call.result) rest ≡ 0
  unsent : d.results call.result ≡ []

length-empty : {A : Type 0} (xs : List A) → length xs ≡ 0 → xs ≡ []
length-empty [] h = refl
length-empty (x ∷ xs) h = cc

pending-Waits :
    {n : ℕ} (key : Text) (call : PendingCall) (d : Dispatcher)
    → lookup key d.pending ≡ some call
    → IsSettled n d
    → Waits call (remove key d.pending) d
pending-Waits key call d h v =
    let counted = count-remove (goes_to call.result) key call d.pending v.unique h in
    record {
      alone = ground (arith, counted, v.once call.result);
      unsent = length-empty _ (ground (arith, counted, v.once call.result));
    }

unless_failed-IsSettled :
    {n : ℕ} (d : Dispatcher) (e : Option DispatchError) (next : Dispatcher)
    → IsSettled n d
    → IsSettled n next
    → IsSettled n (unless_failed d e next)
unless_failed-IsSettled d none next v w = w
unless_failed-IsSettled d (some e) next v w = close_with_error-IsSettled e d v

is_empty_iff : (s : Text) → (is_empty s ≡ true) ↔ (s ≡ [])
is_empty_iff [] = ground arith
is_empty_iff (x ∷ s) = ground arith

module _ (codec : Codec) where
  handle_response-delivered :
      {n : ℕ} (message : RpcMessage) (call : PendingCall) (d : Dispatcher)
      → IsSettled n d
      → lookup (id_key codec message.id) d.pending ≡ some call
      → (handle_response codec message d).results call.result
        ≡ result_of codec call message.result message.error ∷ []
  unfolding handle_response deliver
  handle_response-delivered message call d v h =
      let key = id_key codec message.id in
      let w = pending-Waits key call d h v in
      let r = result_of codec call message.result message.error in
      let delivered = deliver codec message call (record d { pending = remove key d.pending }) in
      ground (
        arith,
        h,
        w,
        send_result_self call.result r d.results,
        close_with_error-others protocol_mismatch call.result delivered,
      )

  confirm-mismatch :
      (call : PendingCall) (result id : Text)
      → call.provisional_id ≢ []
      → confirmed_id codec call.method result ≡ some id
      → id ≢ call.provisional_id
      → confirm_provisional_id codec call result ≡ false
  unfolding confirm_provisional_id
  confirm-mismatch call result id announced found other =
      ground (arith, is_empty_iff call.provisional_id, text_eq_iff id call.provisional_id)

  handle_response-breaks :
      (message : RpcMessage) (call : PendingCall) (d : Dispatcher)
      → d.closed ≡ false
      → lookup (id_key codec message.id) d.pending ≡ some call
      → message.error ≡ none
      → confirm_provisional_id codec call message.result ≡ false
      → ((handle_response codec message d).closed ≡ true)
        × ((handle_response codec message d).close_err ≡ protocol_mismatch)
        × ((handle_response codec message d).pending ≡ [])
  unfolding handle_response breaks_protocol close_with_error deliver
  handle_response-breaks message call d running h good wrong = ground arith

  read_loop-closed : (lines : List Line) (d : Dispatcher) → (read_loop codec lines d).closed ≡ true
  unfolding read_loop close_with_error
  read_loop-closed [] d = ground arith
  read_loop-closed (err e ∷ lines) d = ground arith
  read_loop-closed (ok (message, outlet) ∷ lines) d =
      ground (arith, read_loop-closed lines (handle_message codec message outlet d).0)

  read_loop-IsSettled :
      {n : ℕ} (lines : List Line) (d : Dispatcher)
      → IsSettled n d
      → IsSettled n (read_loop codec lines d)
  unfolding read_loop
  read_loop-IsSettled [] d v = close_with_error-IsSettled dispatcher_closed d v
  read_loop-IsSettled (err e ∷ lines) d v = close_with_error-IsSettled e d v
  read_loop-IsSettled (ok (message, outlet) ∷ lines) d v =
      let next = (handle_message-IsSettled codec message outlet d v).state in
      unless_failed-IsSettled _ (handle_message codec message outlet d).1 _ next
        (read_loop-IsSettled lines _ next)

  -- Reading ends in a closed dispatcher in which every call has its result: after fewer than
  -- 2^64 - 1 steps on a new dispatcher, in any order, with ids of calls that come back as they were
  -- written, whatever lines the app server writes until its output ends or the loop returns, a call
  -- that was begun and that its caller did not give up has exactly one result.
  pub read_loop-answers :
      (ss : List Step) (lines : List Line) (c : ℕ)
      → TrimsIds codec
      → 1 + length ss < id_bound
      → c < (read_loop codec lines (steps codec new_dispatcher ss)).next_channel
      → times c (read_loop codec lines (steps codec new_dispatcher ss)).withdrawn ≡ 0
      → length ((read_loop codec lines (steps codec new_dispatcher ss)).results c) ≡ 1
  unfolding count_values
  read_loop-answers ss lines c trims small made kept =
      let d = steps codec new_dispatcher ss in
      let v = read_loop-IsSettled lines d (steps-IsSettled codec ss trims small) in
      ground (arith, v.once c, v.drained (read_loop-closed lines d), made, kept)

  -- A response to a pending call, for which a notification announced an id before, on a dispatcher
  -- that is not closed and whose calls are accounted for: where the response has no error and its
  -- result has another id, or an empty one, the caller gets the protocol error as its one result, the
  -- dispatcher is closed with that error, and no call is left pending.
  pub handle_response-mismatch :
      {n : ℕ} (message : RpcMessage) (call : PendingCall) (d : Dispatcher) (id : Text)
      → IsSettled n d
      → d.closed ≡ false
      → lookup (id_key codec message.id) d.pending ≡ some call
      → message.error ≡ none
      → call.provisional_id ≢ []
      → confirmed_id codec call.method message.result ≡ some id
      → id ≢ call.provisional_id
      → ((handle_response codec message d).results call.result ≡ err protocol_mismatch ∷ [])
        × ((handle_response codec message d).closed ≡ true)
        × ((handle_response codec message d).close_err ≡ protocol_mismatch)
        × ((handle_response codec message d).pending ≡ [])
  handle_response-mismatch message call d id v running h good announced found other =
      let wrong = confirm-mismatch call message.result id announced found other in
      let closing = handle_response-breaks message call d running h good wrong in
      (
        ground (arith, handle_response-delivered message call d v h, good, wrong),
        closing.0,
        closing.1,
        closing.2,
      )
