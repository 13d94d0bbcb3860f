-- ===== src/Domain/Errors.antt =====
-- gateway/internal/domain/errors.go. Identifiers are byte sequences; a display message is never
-- taken apart, so it is a native string.
use codex_runtime.Base.{Bool, String, Text}

-- `no_reason` is the empty string, the zero value of the Go type.
pub data GatewayErrorReason : Type 0 where
  no_reason : GatewayErrorReason
  invalid_request unauthenticated invalid_locator workspace_mismatch : GatewayErrorReason
  mutually_exclusive_cursors invalid_cursor response_type_mismatch : GatewayErrorReason
  pending_response_fingerprint_mismatch pending_request_already_resolved : GatewayErrorReason
  pending_unavailable_after_restart invalid_enum request_too_large : GatewayErrorReason
  unknown_session_group unknown_task unknown_pending_request : GatewayErrorReason
  unknown_thread_binding unknown_chat thread_binding_expired : GatewayErrorReason
  ambiguous_locator already_running idempotency_fingerprint_mismatch : GatewayErrorReason
  idempotency_scope_mismatch idempotency_result_unavailable : GatewayErrorReason
  idempotency_unavailable_after_restart replay_unavailable replay_out_of_range : GatewayErrorReason
  history_unavailable chat_state_unavailable codex_home_mismatch : GatewayErrorReason
  auth_refresh_unavailable app_server_schema_unverified unsafe_runtime_policy : GatewayErrorReason
  unsafe_listen_config start_interrupted_before_turn caller_canceled : GatewayErrorReason
  caller_deadline_exceeded resource_exhausted dispatcher_unavailable : GatewayErrorReason
  app_server_exited app_server_restart_backoff chat_runtime_disabled : GatewayErrorReason
  chat_runtime_not_implemented internal_gateway_error : GatewayErrorReason

-- What a caller is told of a failure.
pub record GatewayErrorDetails : Type 0 where
  pub reason : GatewayErrorReason
  pub display_message : String
  pub task_id : Text
  pub session_group_id : Text
  pub client_message_id : Text
  pub client_response_id : Text
  pub pending_request_id : Text
  pub thread_id : Text
  pub retryable : Bool

pub data GatewayErrorCode : Type 0 where
  invalid_argument not_found permission_denied failed_precondition aborted : GatewayErrorCode
  canceled deadline_exceeded exhausted out_of_range unavailable unknown : GatewayErrorCode
  internal : GatewayErrorCode

pub record GatewayError : Type 0 where
  pub code : GatewayErrorCode
  pub details : GatewayErrorDetails
