-- ===== src/Domain/Events.antt =====
-- gateway/internal/domain/events.go: the payloads of chat events.
use codex_runtime.Base.{Bool, ℕ, Text}
use codex_runtime.Domain.Errors.{GatewayErrorReason}
use codex_runtime.Domain.Enums.{
  ChatTurnLifecycle, CommandOutputStream, PendingType, PendingResolution,
}
use codex_runtime.Domain.Displays.{PendingRequestDisplay}

pub record ChatPendingRequest : Type 0 where
  pub pending_request_id : Text
  pub chat_id : Text
  pub run_id : Text
  pub pending_type : PendingType
  pub created_at_unix_ms : ℕ
  pub item_id : Text
  pub display : PendingRequestDisplay

pub record ChatTerminal : Type 0 where
  pub state : ChatTurnLifecycle
  pub reason : GatewayErrorReason
  pub display_message : Text

pub record ChatPendingResolved : Type 0 where
  pub pending_request_id : Text
  pub pending_type : PendingType
  pub resolution : PendingResolution
  pub display_message : Text

pub record AssistantDeltaEvent : Type 0 where
  pub text_delta : Text
  pub truncated : Bool

pub record AssistantMessageCompletedEvent : Type 0 where
  pub message : Text
  pub truncated : Bool

pub record CommandStartedEvent : Type 0 where
  pub item_id : Text
  pub command_display : Text
  pub workspace_label : Text

pub record CommandOutputDeltaEvent : Type 0 where
  pub item_id : Text
  pub stream : CommandOutputStream
  pub delta : Text
  pub truncated : Bool

pub record GatewayWarningEvent : Type 0 where
  pub code : Text
  pub message : Text
  pub request_type : Text
  pub auto_resolution : Text
  pub limit_reason : Text

-- A pending request of a task.
pub record PendingRequest : Type 0 where
  pub pending_request_id : Text
  pub task_id : Text
  pub pending_type : PendingType
  pub created_at_unix_ms : ℕ
  pub thread_id : Text
  pub turn_id : Text
  pub item_id : Text
  pub display : PendingRequestDisplay
