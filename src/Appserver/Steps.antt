-- ===== src/Appserver/Steps.antt =====
-- gateway/internal/appserver/dispatcher.go: what the goroutines of callers and of the reader do to a
-- dispatcher, as steps between which others may come. A caller's Call is a `begins`, a `writes` and,
-- where it gives up, a `withdraws`; an answer to the app server is a `claims`, a `writes` and a
-- `completes`.
use codex_runtime.Base.{ℕ, Text, List, [], ◌∷◌, Result}
use codex_runtime.Appserver.Rpc.{Codec, RpcMessage}
use codex_runtime.Appserver.Dispatcher.{
  DispatchError, CallMetadata, Dispatcher, close_with_error, new_pending_call, remove_pending,
}
use codex_runtime.Appserver.Requests.{
  Outlet, WriteOutcome, handle_message, claim_response, complete_server_request,
  write_message_context,
}

pub data Step : Type 0 where
  begins : Text → Result DispatchError Text → CallMetadata → Step
  withdraws : ℕ → Step
  writes : RpcMessage → WriteOutcome → Step
  handles : RpcMessage → Outlet → Step
  claims completes : Text → Step
  closes : DispatchError → Step

module _ (codec : Codec) where
  unfoldable pub step : Dispatcher → Step → Dispatcher
  step d (begins method params metadata) = (new_pending_call codec method params metadata d).0
  step d (withdraws id) = (remove_pending id d).0
  step d (writes message outcome) = (write_message_context message outcome d).0
  step d (handles message outlet) = (handle_message codec message outlet d).0
  step d (claims id) = (claim_response codec id d).0
  step d (completes key) = (complete_server_request key d).0
  step d (closes e) = close_with_error e d

  unfoldable pub steps : Dispatcher → List Step → Dispatcher
  steps d [] = d
  steps d (s ∷ rest) = steps (step d s) rest
