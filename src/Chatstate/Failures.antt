-- ===== src/Chatstate/Failures.antt =====
-- gateway/internal/chatstate/store.go: the errors that its operations return.
use codex_runtime.Base.{String, Text, [], true, false}
use codex_runtime.Domain.{
  GatewayError, GatewayErrorReason, GatewayErrorCode, invalid_argument, failed_precondition,
  aborted, exhausted, unavailable,
}
use codex_runtime.Chatstate.Types.{
  Scope, RunScope, IdempotencyScope, Cursor, ReplayError, unavailable_after_restart, cursor_evicted,
  out_of_range,
}

-- The fields that every failure of a chat sets; the others keep their zero values.
chat_failure : GatewayErrorCode → GatewayErrorReason → String → Text → Text → GatewayError
chat_failure code reason message session_group_id chat_id = record {
  code = code;
  details = record {
    reason = reason;
    display_message = message;
    task_id = [];
    session_group_id = session_group_id;
    client_message_id = [];
    client_response_id = [];
    pending_request_id = [];
    thread_id = chat_id;
    retryable = false;
  };
}

unfoldable pub invalid_request : String → Scope → GatewayError
unfolding chat_failure
invalid_request message scope =
    chat_failure invalid_argument GatewayErrorReason.invalid_request message scope.session_group_id
      scope.chat_id

unfoldable pub resource_exhausted : String → Scope → GatewayError
unfolding chat_failure
resource_exhausted message scope =
    chat_failure exhausted GatewayErrorReason.resource_exhausted message scope.session_group_id
      scope.chat_id

unfoldable pub already_running : RunScope → GatewayError
unfolding chat_failure
already_running scope =
    chat_failure failed_precondition GatewayErrorReason.already_running
      "chat already has active run" scope.session_group_id scope.chat_id

retryable : GatewayError → GatewayError
retryable e = record e { details = record (e.details) { retryable = true } }

about_request : Text → GatewayError → GatewayError
about_request id e = record e { details = record (e.details) { pending_request_id = id } }

unfoldable pub unknown_active_run : RunScope → GatewayError
unfolding chat_failure retryable
unknown_active_run scope = retryable (
    chat_failure failed_precondition GatewayErrorReason.invalid_request
      "active run correlation is unavailable" scope.session_group_id scope.chat_id)

unfoldable pub pending_unavailable : RunScope → Text → GatewayError
unfolding chat_failure retryable about_request
pending_unavailable scope id = about_request id (
    retryable (
      chat_failure unavailable GatewayErrorReason.pending_unavailable_after_restart
        "pending correlation is unavailable in this gateway process" scope.session_group_id
        scope.chat_id))

unfoldable pub pending_already_resolved : RunScope → Text → GatewayError
unfolding chat_failure about_request
pending_already_resolved scope id = about_request id (
    chat_failure failed_precondition GatewayErrorReason.pending_request_already_resolved
      "pending request is not active" scope.session_group_id scope.chat_id)

unfoldable pub idempotency_scope_mismatch : IdempotencyScope → GatewayError
unfolding chat_failure
idempotency_scope_mismatch scope =
    chat_failure aborted GatewayErrorReason.idempotency_scope_mismatch
      "idempotency key was reused with a different safe scope" scope.session_group_id scope.chat_id

unfoldable pub idempotency_unavailable : IdempotencyScope → GatewayError
unfolding chat_failure retryable
idempotency_unavailable scope = retryable (
    chat_failure unavailable GatewayErrorReason.idempotency_unavailable_after_restart
      "idempotency record is unavailable in this gateway process" scope.session_group_id
      scope.chat_id)

unfoldable pub replay_unavailable_after_restart : Cursor → ReplayError
replay_unavailable_after_restart cursor = record {
  kind = unavailable_after_restart;
  cursor = cursor;
  message = "replay is unavailable in this gateway process";
}

unfoldable pub replay_cursor_evicted : Cursor → ReplayError
replay_cursor_evicted cursor = record {
  kind = cursor_evicted;
  cursor = cursor;
  message = "the requested chat event cursor is no longer buffered";
}

unfoldable pub replay_out_of_range : Cursor → ReplayError
replay_out_of_range cursor = record {
  kind = out_of_range;
  cursor = cursor;
  message = "the requested chat event cursor is outside the buffered range";
}
