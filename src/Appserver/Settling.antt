-- ===== src/Appserver/Settling.antt =====
-- gateway/internal/appserver/dispatcher.go: the sections that deal with calls, and their accounts.
use codex_runtime.Base.{
  ℕ, ◌+◌, ◌<◌, ◌≡◌, refl, Text, text_eq, text_eq_iff, ascii, false, Option, none, some, List, Map,
  lookup, insert, count_values, HasKeys-insert, lookup-insert, count-insert_new, strconv_uint,
  strconv_uint-injective, Result, ok, err, arith, u64, Option-cases, if-cases, is_some, inl, inr,
}
use codex_runtime.Appserver.Rpc.{
  Codec, TrimsIds, RpcMessage, must_id, id_key, is_empty, new_request,
}
use codex_runtime.Appserver.Dispatcher.{
  DispatchError, PendingCall, CallMetadata, Dispatcher, new_pending_call, new_dispatcher,
  prepare_call, ServerRequest, Notification, protocol_mismatch, pending_call, ServerRequestState,
}
use codex_runtime.Appserver.Responses.{
  handle_response, breaks_protocol, record_provisional_id, bind_lifecycle, ProvisionalLifecycle,
  bind_chosen,
}
use codex_runtime.Appserver.Requests.{complete_server_request}
use codex_runtime.Appserver.Accounts.{
  IsSettled, id_bound, goes_to, close_with_error-IsSettled, deliver-IsSettled, bind-IsSettled,
}

-- What the other fields hold does not matter.
abbrev pub with_others :
    Map ServerRequestState
    → List RpcMessage
    → List ServerRequest
    → List Notification
    → Dispatcher
    → Dispatcher
with_others states written requests notifications d = record d {
  server_requests = states;
  written = written;
  requests = requests;
  notifications = notifications;
}

pub weaken-IsSettled : {n : ℕ} (d : Dispatcher) → IsSettled n d → IsSettled (n + 1) d
weaken-IsSettled d v = record {
  bounded = omega (arith, v.bounded);
  unique = v.unique;
  at_id = v.at_id;
  once = v.once;
  drained = v.drained;
}

-- The state that an operation returns with its result.
pub record Settles (n : ℕ) {A : Type 0} (r : Dispatcher × A) : Type 0 where
  pub state : IsSettled n r.0

pub settled : {n : ℕ} {A : Type 0} (d : Dispatcher) (a : A) → IsSettled n d → Settles n (d, a)
settled d a v = record { state = v }

pub others-IsSettled :
    {n : ℕ} (states : Map ServerRequestState) (written : List RpcMessage)
    (requests : List ServerRequest) (notifications : List Notification) (d : Dispatcher)
    → IsSettled n d
    → IsSettled n (with_others states written requests notifications d)
others-IsSettled states written requests notifications d v = record {
  bounded = v.bounded;
  unique = v.unique;
  at_id = v.at_id;
  once = v.once;
  drained = v.drained;
}

new-fresh :
    {n : ℕ} (d : Dispatcher)
    → IsSettled n d
    → d.next_id < id_bound
    → lookup (strconv_uint d.next_id) d.pending ≡ none
new-fresh d v small = elim (Option-cases (lookup (strconv_uint d.next_id) d.pending)) [
  | inl p ↦ p
  | inr (call, p) ↦
      let at = v.at_id (strconv_uint d.next_id) call p in
      absurd (
        omega (
          arith,
          at.1,
          strconv_uint-injective d.next_id call.id small (omega (arith, at.1, small)) at.0,
        ))
]

begun-IsSettled :
    {n : ℕ} (call : PendingCall) (d : Dispatcher)
    → d.closed ≡ false
    → d.next_id + 1 < id_bound
    → call.id ≡ d.next_id
    → call.result ≡ d.next_channel
    → IsSettled n d
    → IsSettled (n + 1) (record d {
      next_id = u64 (d.next_id + 1);
      pending = insert (strconv_uint d.next_id) call d.pending;
      next_channel = d.next_channel + 1;
    })
begun-IsSettled call d running small same fresh v =
    let new = new-fresh d v (omega (arith, small)) in
    let grown : u64 (d.next_id + 1) ≡ d.next_id + 1 = omega (arith, small) in
    record {
      bounded = omega (arith, v.bounded, grown);
      unique = HasKeys-insert (strconv_uint d.next_id) call d.pending v.unique;
      at_id = λ key c h. ground (
        arith,
        grown,
        same,
        v.at_id key c,
        lookup-insert (strconv_uint d.next_id) key call d.pending,
        text_eq_iff (strconv_uint d.next_id) key,
      );
      once = λ c. ground (
        arith,
        fresh,
        v.once c,
        count-insert_new (goes_to c) (strconv_uint d.next_id) call d.pending new,
      );
      drained = λ h. cc;
    }

pub new-IsSettled : IsSettled 1 new_dispatcher
unfolding new_dispatcher lookup count_values
new-IsSettled = record {
  bounded = omega arith;
  unique = tt;
  at_id = λ key c h. cc;
  once = λ c. ground arith;
  drained = λ h. refl;
}

module _ (codec : Codec) where
  prepared-IsSettled :
      {n : ℕ} (method : Text) (params : Result DispatchError Text) (metadata : CallMetadata)
      (d : Dispatcher)
      → TrimsIds codec
      → d.next_id + 1 < id_bound
      → d.closed ≡ false
      → IsSettled n d
      → Settles (n + 1) (prepare_call codec method metadata d params)
  unfolding pending_call id_key new_request must_id
  prepared-IsSettled method (err e) metadata d trims small running v = settled _ _ (record {
    bounded = omega (arith, v.bounded, small);
    unique = v.unique;
    at_id = λ key c h. ((v.at_id key c h).0, omega (arith, (v.at_id key c h).1, small));
    once = v.once;
    drained = v.drained;
  })
  prepared-IsSettled method (ok raw) metadata d trims small running v =
      settled _ _ (rw (trims d.next_id) (begun-IsSettled _ d running small refl refl v))

  pub new_pending_call-IsSettled :
      {n : ℕ} (method : Text) (params : Result DispatchError Text) (metadata : CallMetadata)
      (d : Dispatcher)
      → TrimsIds codec
      → d.next_id + 1 < id_bound
      → IsSettled n d
      → Settles (n + 1) (new_pending_call codec method params metadata d)
  unfolding new_pending_call
  new_pending_call-IsSettled method params metadata d trims small v =
      if-cases (Settles _) d.closed _ _ (λ p. settled _ _ (weaken-IsSettled d v))
        (λ p. prepared-IsSettled method params metadata d trims small p v)

  pub handle_response-IsSettled :
      {n : ℕ} (message : RpcMessage) (d : Dispatcher)
      → IsSettled n d
      → IsSettled n (handle_response codec message d)
  unfolding handle_response
  handle_response-IsSettled message d v =
      elim (Option-cases (lookup (id_key codec message.id) d.pending)) [
        | inl p ↦ rw p v
        | inr (call, p) ↦ rw p (
            let delivered = deliver-IsSettled codec message (id_key codec message.id) call d p v in
            if-cases (IsSettled _) (breaks_protocol codec message call) _ _
              (λ q. close_with_error-IsSettled protocol_mismatch _ delivered) (λ q. delivered))
      ]

  pub complete_server_request-IsSettled :
      {n : ℕ} (key : Text) (d : Dispatcher)
      → IsSettled n d
      → Settles n (complete_server_request key d)
  unfolding complete_server_request
  complete_server_request-IsSettled key d v =
      if-cases (Settles _) (is_some (lookup key d.server_requests)) _ _
        (λ p. settled _ _ (others-IsSettled _ _ _ _ d v)) (λ p. settled _ _ v)

  bind_chosen-IsSettled :
      {n : ℕ} (provisional_id : Text) (chosen : Option Text) (d : Dispatcher)
      → IsSettled n d
      → Settles n (bind_chosen provisional_id chosen d)
  bind_chosen-IsSettled provisional_id none d v = settled _ _ v
  bind_chosen-IsSettled provisional_id (some key) d v = elim (Option-cases (lookup key d.pending)) [
    | inl p ↦ rw p (settled _ _ v)
    | inr (call, p) ↦ rw p (settled _ _ (bind-IsSettled provisional_id key call d p v))
  ]

  bind_lifecycle-IsSettled :
      {n : ℕ} (methods : List Text) (lifecycle : ProvisionalLifecycle) (d : Dispatcher)
      → IsSettled n d
      → Settles n (bind_lifecycle methods lifecycle d)
  unfolding bind_lifecycle
  bind_lifecycle-IsSettled methods lifecycle d v =
      if-cases (Settles _) (is_empty lifecycle.provisional_id) _ _ (λ p. settled _ _ v)
        (λ p. bind_chosen-IsSettled lifecycle.provisional_id _ d v)

  pub record_provisional_id-IsSettled :
      {n : ℕ} (message : RpcMessage) (d : Dispatcher)
      → IsSettled n d
      → Settles n (record_provisional_id codec message d)
  unfolding record_provisional_id
  record_provisional_id-IsSettled message d v =
      if-cases (Settles _) (text_eq message.method (ascii "thread/started")) _ _
        (λ p. bind_lifecycle-IsSettled _ _ d v)
        (λ p.
          if-cases (Settles _) (text_eq message.method (ascii "turn/started")) _ _
            (λ q. bind_lifecycle-IsSettled _ _ d v) (λ q. settled _ _ v))
