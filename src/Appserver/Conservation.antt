-- ===== src/Appserver/Conservation.antt =====
-- gateway/internal/appserver/dispatcher.go: the results of calls over whole histories.
use codex_runtime.Base.{
  ℕ, ◌+◌, ◌<◌, Text, text_eq, ascii, List, [], ◌∷◌, length, lookup, arith, Option-cases, if-cases,
  is_some, inl, inr, not, ◌&&◌, subst,
}
use codex_runtime.Appserver.Rpc.{
  Codec, TrimsIds, RpcMessage, id_key, is_empty, server_request_id_from_resolved,
}
use codex_runtime.Appserver.Dispatcher.{Dispatcher, new_dispatcher, ServerRequest, Notification}
use codex_runtime.Appserver.Requests.{
  Outlet, accepted, done, WriteOutcome, unencodable, over_before, over_during, pipe_failed,
  done_first, pipe_taken, request_of, handle_server_request, remove_resolved_server_request,
  handle_notification, handle_message, claim_response, write_message_context, put_request,
  put_notification,
}
use codex_runtime.Appserver.Steps.{
  Step, begins, withdraws, writes, handles, claims, completes, closes, step, steps,
}
use codex_runtime.Appserver.Accounts.{
  IsSettled, id_bound, close_with_error-IsSettled, remove_pending-IsSettled,
}
use codex_runtime.Appserver.Settling.{
  others-IsSettled, weaken-IsSettled, Settles, settled, new-IsSettled,
  complete_server_request-IsSettled, record_provisional_id-IsSettled, handle_response-IsSettled,
  new_pending_call-IsSettled,
}

module _ (codec : Codec) where
  put_request-IsSettled :
      {n : ℕ} (request : ServerRequest) (outlet : Outlet) (d : Dispatcher)
      → IsSettled n d
      → Settles n (put_request request outlet d)
  put_request-IsSettled request accepted d v = settled _ _ (others-IsSettled _ _ _ _ d v)
  put_request-IsSettled request (done e) d v = settled _ _ (close_with_error-IsSettled e d v)

  put_notification-IsSettled :
      {n : ℕ} (note : Notification) (outlet : Outlet) (d : Dispatcher)
      → IsSettled n d
      → Settles n (put_notification note outlet d)
  put_notification-IsSettled note accepted d v = settled _ _ (others-IsSettled _ _ _ _ d v)
  put_notification-IsSettled note (done e) d v = settled _ _ (close_with_error-IsSettled e d v)

  handle_server_request-IsSettled :
      {n : ℕ} (message : RpcMessage) (outlet : Outlet) (d : Dispatcher)
      → IsSettled n d
      → Settles n (handle_server_request codec message outlet d)
  unfolding handle_server_request request_of
  handle_server_request-IsSettled message outlet d v =
      if-cases (Settles _) d.closed _ _ (λ p. settled _ _ v)
        (λ p.
          if-cases (Settles _) (is_some (lookup (id_key codec message.id) d.server_requests)) _ _
            (λ q. settled _ _ v)
            (λ q. put_request-IsSettled _ outlet _ (others-IsSettled _ _ _ _ d v)))

  remove_resolved-IsSettled :
      {n : ℕ} (params : Text) (d : Dispatcher)
      → IsSettled n d
      → Settles n (remove_resolved_server_request codec params d)
  unfolding remove_resolved_server_request
  remove_resolved-IsSettled params d v =
      if-cases (Settles _) (is_empty (server_request_id_from_resolved codec params)) _ _
        (λ p. settled _ _ v) (λ p. complete_server_request-IsSettled codec _ d v)

  handle_notification-IsSettled :
      {n : ℕ} (message : RpcMessage) (outlet : Outlet) (d : Dispatcher)
      → IsSettled n d
      → Settles n (handle_notification codec message outlet d)
  unfolding handle_notification
  handle_notification-IsSettled message outlet d v =
      let bound = (record_provisional_id-IsSettled codec message d v).state in
      put_notification-IsSettled _ outlet _
        (if-cases (Settles _) (text_eq message.method (ascii "serverRequest/resolved")) _ _
          (λ p. remove_resolved-IsSettled message.params _ bound) (λ p. settled _ _ bound)).state

  pub handle_message-IsSettled :
      {n : ℕ} (message : RpcMessage) (outlet : Outlet) (d : Dispatcher)
      → IsSettled n d
      → Settles n (handle_message codec message outlet d)
  unfolding handle_message
  handle_message-IsSettled message outlet d v =
      if-cases (Settles _) (not (is_empty message.method) && not (is_empty message.id)) _ _
        (λ p. handle_server_request-IsSettled message outlet d v)
        (λ p.
          if-cases (Settles _) (not (is_empty message.method)) _ _
            (λ q. handle_notification-IsSettled message outlet d v)
            (λ q.
              if-cases (Settles _) (not (is_empty message.id)) _ _
                (λ r. settled _ _ (handle_response-IsSettled codec message d v))
                (λ r. settled _ _ v)))

  claim_response-IsSettled :
      {n : ℕ} (id : Text) (d : Dispatcher) → IsSettled n d → Settles n (claim_response codec id d)
  unfolding claim_response
  claim_response-IsSettled id d v =
      elim (Option-cases (lookup (id_key codec id) d.server_requests)) [
        | inl p ↦ rw p (settled _ _ v)
        | inr (state, p) ↦ rw p (
            if-cases (Settles _) state.responded _ _ (λ q. settled _ _ v)
              (λ q. settled _ _ (others-IsSettled _ _ _ _ d v)))
      ]

  write_message_context-IsSettled :
      {n : ℕ} (message : RpcMessage) (outcome : WriteOutcome) (d : Dispatcher)
      → IsSettled n d
      → Settles n (write_message_context message outcome d)
  unfolding write_message_context
  write_message_context-IsSettled message (unencodable e) d v = settled _ _ v
  write_message_context-IsSettled message (over_before e) d v =
      settled _ _ (close_with_error-IsSettled e d v)
  write_message_context-IsSettled message (over_during e) d v =
      settled _ _ (close_with_error-IsSettled e d v)
  write_message_context-IsSettled message (pipe_failed e) d v =
      if-cases (Settles _) d.closed _ _ (λ p. settled _ _ v)
        (λ p. settled _ _ (close_with_error-IsSettled e d v))
  write_message_context-IsSettled message (done_first e) d v =
      settled _ _ (close_with_error-IsSettled e d v)
  write_message_context-IsSettled message pipe_taken d v =
      if-cases (Settles _) d.closed _ _ (λ p. settled _ _ v)
        (λ p. settled _ _ (others-IsSettled _ _ _ _ d v))

  step-IsSettled :
      {n : ℕ} (s : Step) (d : Dispatcher)
      → TrimsIds codec
      → n + 1 < id_bound
      → IsSettled n d
      → IsSettled (n + 1) (step codec d s)
  unfolding step
  step-IsSettled (begins method params metadata) d trims small v =
      (new_pending_call-IsSettled codec method params metadata d trims
        (omega (arith, small, v.bounded)) v).state
  step-IsSettled (withdraws id) d trims small v =
      weaken-IsSettled _ (remove_pending-IsSettled id d v)
  step-IsSettled (writes message outcome) d trims small v =
      weaken-IsSettled _ (write_message_context-IsSettled message outcome d v).state
  step-IsSettled (handles message outlet) d trims small v =
      weaken-IsSettled _ (handle_message-IsSettled message outlet d v).state
  step-IsSettled (claims id) d trims small v =
      weaken-IsSettled _ (claim_response-IsSettled id d v).state
  step-IsSettled (completes key) d trims small v =
      weaken-IsSettled _ (complete_server_request-IsSettled codec key d v).state
  step-IsSettled (closes e) d trims small v = weaken-IsSettled _ (close_with_error-IsSettled e d v)

  steps-IsSettled_from :
      (ss : List Step) {n : ℕ} (d : Dispatcher)
      → TrimsIds codec
      → n + length ss < id_bound
      → IsSettled n d
      → IsSettled (n + length ss) (steps codec d ss)
  unfolding steps
  steps-IsSettled_from [] {n} d trims small v = subst (λ k. IsSettled k d) (omega arith) v
  steps-IsSettled_from (s ∷ ss) {n} d trims small v =
      subst (λ k. IsSettled k (steps codec (step codec d s) ss)) (omega arith)
        (steps-IsSettled_from ss (step codec d s) trims (omega (arith, small))
          (step-IsSettled s d trims (omega (arith, small)) v))

  -- After fewer than 2^64 - 1 steps of callers and of the reader on a new dispatcher, in any order,
  -- with ids of calls that come back as they were written: every pending call stands under its own
  -- id; every result channel that was made is either that of exactly one pending call, or holds
  -- exactly one result, or was given up once by its caller, and only one of these; and a closed
  -- dispatcher has no pending call.
  pub steps-IsSettled :
      (ss : List Step)
      → TrimsIds codec
      → 1 + length ss < id_bound
      → IsSettled (1 + length ss) (steps codec new_dispatcher ss)
  steps-IsSettled ss trims small = steps-IsSettled_from ss new_dispatcher trims small new-IsSettled
