-- ===== src/Appserver/Answers.antt =====
-- gateway/internal/appserver/dispatcher.go: answers to the app server's own requests.
use codex_runtime.Base.{
  ◌≡◌, ◌≢◌, refl, Text, text_eq_iff, Bool, true, false, not, Option, none, some, List, [], ◌∷◌,
  lookup, insert, lookup-insert, lookup-remove, is_some, Option-cases, All, arith, ok, err, inl,
  inr, lookup-insert_self,
}
use codex_runtime.Appserver.Rpc.{
  Codec, RpcMessage, id_key, is_empty, server_request_id_from_resolved,
}
use codex_runtime.Appserver.Dispatcher.{
  DispatchError, Dispatcher, close_with_error, new_pending_call, remove_pending, ServerRequestState,
  ServerRequest, Notification,
}
use codex_runtime.Appserver.Responses.{
  handle_response, record_provisional_id, bind_lifecycle, deliver, bind_chosen,
}
use codex_runtime.Appserver.Requests.{
  Outlet, accepted, done, WriteOutcome, unencodable, over_before, over_during, pipe_failed,
  done_first, pipe_taken, request_of, handle_server_request, complete_server_request,
  remove_resolved_server_request, handle_notification, handle_message, claim_response,
  write_message_context, put_request, put_notification,
}
use codex_runtime.Appserver.Steps.{
  Step, begins, withdraws, writes, handles, claims, completes, closes, step, steps,
}

-- Whether the request under the key is there and waits for its answer.
abbrev pub awaits : Option ServerRequestState → Bool
awaits none = false
awaits (some state) = not state.responded

abbrev pub is_awaited : Text → Dispatcher → Bool
is_awaited key d = awaits (lookup key d.server_requests)

-- The step brings no request of the app server under the key.
abbrev pub Spares : Codec → Text → Step → Type 0
Spares codec key (handles message outlet) =
    (is_empty message.method ≡ false)
    → (is_empty message.id ≡ false)
    → id_key codec message.id ≢ key
Spares codec key _ = Unit

close-answered :
    (key : Text) (e : DispatchError) (d : Dispatcher)
    → is_awaited key d ≡ false
    → is_awaited key (close_with_error e d) ≡ false
unfolding close_with_error lookup
close-answered key e d h = ground arith

module _ (codec : Codec) (key : Text) where
  handle_response-answered :
      (message : RpcMessage) (d : Dispatcher)
      → is_awaited key d ≡ false
      → is_awaited key (handle_response codec message d) ≡ false
  unfolding handle_response deliver close_with_error lookup
  handle_response-answered message d h = ground arith

  complete-answered :
      (k : Text) (d : Dispatcher)
      → is_awaited key d ≡ false
      → is_awaited key (complete_server_request k d).0 ≡ false
  unfolding complete_server_request
  complete-answered k d h = ground (arith, lookup-remove k key d.server_requests)

  claim-answered :
      (id : Text) (d : Dispatcher)
      → is_awaited key d ≡ false
      → is_awaited key (claim_response codec id d).0 ≡ false
  unfolding claim_response
  claim-answered id d h = elim (Option-cases (lookup (id_key codec id) d.server_requests)) [
    | inl p ↦ ground (arith, p)
    | inr (state, p) ↦ ground (
      arith,
      p,
      lookup-insert (id_key codec id) key (record state { responded = true }) d.server_requests,
    )
  ]

  write-answered :
      (message : RpcMessage) (outcome : WriteOutcome) (d : Dispatcher)
      → is_awaited key d ≡ false
      → is_awaited key (write_message_context message outcome d).0 ≡ false
  unfolding write_message_context
  write-answered message (unencodable e) d h = h
  write-answered message (over_before e) d h = close-answered key e d h
  write-answered message (over_during e) d h = close-answered key e d h
  write-answered message (pipe_failed e) d h = ground (arith, close-answered key e d h)
  write-answered message (done_first e) d h = close-answered key e d h
  write-answered message pipe_taken d h = ground arith

  bind_chosen-answered :
      (provisional_id : Text) (chosen : Option Text) (d : Dispatcher)
      → (bind_chosen provisional_id chosen d).0.server_requests ≡ d.server_requests
  bind_chosen-answered provisional_id none d = refl
  bind_chosen-answered provisional_id (some k) d = ground arith

  record_provisional_id-answered :
      (message : RpcMessage) (d : Dispatcher)
      → (record_provisional_id codec message d).0.server_requests ≡ d.server_requests
  unfolding record_provisional_id bind_lifecycle
  record_provisional_id-answered message d = ground arith

  put_request-answered :
      (request : ServerRequest) (outlet : Outlet) (d : Dispatcher)
      → is_awaited key d ≡ false
      → is_awaited key (put_request request outlet d).0 ≡ false
  put_request-answered request accepted d h = h
  put_request-answered request (done e) d h = close-answered key e d h

  put_notification-answered :
      (n : Notification) (outlet : Outlet) (d : Dispatcher)
      → is_awaited key d ≡ false
      → is_awaited key (put_notification n outlet d).0 ≡ false
  put_notification-answered n accepted d h = h
  put_notification-answered n (done e) d h = close-answered key e d h

  handle_server_request-answered :
      (message : RpcMessage) (outlet : Outlet) (d : Dispatcher)
      → id_key codec message.id ≢ key
      → is_awaited key d ≡ false
      → is_awaited key (handle_server_request codec message outlet d).0 ≡ false
  unfolding handle_server_request request_of
  handle_server_request-answered message outlet d other h =
      let added : ServerRequestState = record {
        request = request_of codec message;
        responded = false;
      } in
      ground (
        arith,
        lookup-insert (id_key codec message.id) key added d.server_requests,
        text_eq_iff (id_key codec message.id) key,
        put_request-answered (request_of codec message) outlet (record d {
          server_requests = insert (id_key codec message.id) added d.server_requests;
        }),
      )

  remove_resolved-answered :
      (params : Text) (d : Dispatcher)
      → is_awaited key d ≡ false
      → is_awaited key (remove_resolved_server_request codec params d).0 ≡ false
  unfolding remove_resolved_server_request
  remove_resolved-answered params d h =
      ground
        (arith, complete-answered (id_key codec (server_request_id_from_resolved codec params)) d h)

  handle_notification-answered :
      (message : RpcMessage) (outlet : Outlet) (d : Dispatcher)
      → is_awaited key d ≡ false
      → is_awaited key (handle_notification codec message outlet d).0 ≡ false
  unfolding handle_notification
  handle_notification-answered message outlet d h = put_notification-answered _ outlet _ (
      ground (
        arith,
        record_provisional_id-answered message d,
        remove_resolved-answered message.params (record_provisional_id codec message d).0,
      ))

  step-answered :
      (s : Step) (d : Dispatcher)
      → Spares codec key s
      → is_awaited key d ≡ false
      → is_awaited key (step codec d s) ≡ false
  unfolding step new_pending_call remove_pending handle_message
  step-answered (begins method (ok raw) metadata) d other h = ground arith
  step-answered (begins method (err e) metadata) d other h = ground arith
  step-answered (withdraws id) d other h = ground arith
  step-answered (writes message outcome) d other h = write-answered message outcome d h
  step-answered (handles message outlet) d other h = ground (
    arith,
    other,
    handle_server_request-answered message outlet d,
    handle_notification-answered message outlet d h,
    handle_response-answered message d h,
  )
  step-answered (claims id) d other h = claim-answered id d h
  step-answered (completes k) d other h = complete-answered k d h
  step-answered (closes e) d other h = close-answered key e d h

  steps-answered :
      (ss : List Step) (d : Dispatcher)
      → All (Spares codec key) ss
      → is_awaited key d ≡ false
      → is_awaited key (steps codec d ss) ≡ false
  unfolding steps
  steps-answered [] d other h = h
  steps-answered (s ∷ ss) d other h =
      steps-answered ss (step codec d s) other.1 (step-answered s d other.0 h)

module _ (codec : Codec) where
  claimed-answered :
      (id : Text) (d : Dispatcher)
      → (claim_response codec id d).1 ≡ none
      → is_awaited (id_key codec id) (claim_response codec id d).0 ≡ false
  unfolding claim_response
  claimed-answered id d h = elim (Option-cases (lookup (id_key codec id) d.server_requests)) [
    | inl p ↦ ground (arith, p, h)
    | inr (state, p) ↦ ground (
      arith,
      p,
      lookup-insert_self (id_key codec id) (record state { responded = true }) d.server_requests,
    )
  ]

  refused-claim :
      (id : Text) (d : Dispatcher)
      → is_awaited (id_key codec id) d ≡ false
      → is_some (claim_response codec id d).1 ≡ true
  unfolding claim_response
  refused-claim id d h = ground arith

  -- Once an answer to a request of the app server was let through to be written, no later answer to
  -- that id is, after any steps in any order, as long as none of them is a request of the app server
  -- under the same id: the second answer gets an error.
  pub respond_once :
      (id : Text) (d : Dispatcher) (ss : List Step)
      → (claim_response codec id d).1 ≡ none
      → All (Spares codec (id_key codec id)) ss
      → is_some (claim_response codec id (steps codec (claim_response codec id d).0 ss)).1 ≡ true
  respond_once id d ss first other =
      refused-claim id _
        (steps-answered codec (id_key codec id) ss _ other (claimed-answered id d first))
