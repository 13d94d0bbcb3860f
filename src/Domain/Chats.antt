-- ===== src/Domain/Chats.antt =====
-- gateway/internal/domain: the status and the events of a chat, as clients get them.
use codex_runtime.Base.{Bool, ℕ, Text, String, Option, List}
use codex_runtime.Domain.Errors.{GatewayErrorReason}
use codex_runtime.Domain.Enums.{ChatTurnLifecycle}
use codex_runtime.Domain.Events.{
  ChatPendingRequest, ChatTerminal, ChatPendingResolved, AssistantDeltaEvent,
  AssistantMessageCompletedEvent, CommandStartedEvent, CommandOutputDeltaEvent, GatewayWarningEvent,
}

pub data ChatThreadLifecycle : Type 0 where
  not_loaded idle active_running waiting_on_approval waiting_on_user_input : ChatThreadLifecycle
  system_error thread_unknown : ChatThreadLifecycle

pub data ChatCapabilityState : Type 0 where
  supported unsupported capability_unavailable capability_unknown narrowed : ChatCapabilityState

pub record ChatCapabilitySet : Type 0 where
  pub status : ChatCapabilityState
  pub history : ChatCapabilityState
  pub event_stream : ChatCapabilityState
  pub replay : ChatCapabilityState
  pub pending : ChatCapabilityState
  pub interrupt : ChatCapabilityState

pub record ChatGatewayLocalState : Type 0 where
  pub live : Bool
  pub replay_available : Bool
  pub replay_unavailable : Bool
  pub process_epoch : Text

pub record ChatStatus : Type 0 where
  pub chat_id : Text
  pub session_group_id : Text
  pub workspace_id : Text
  pub lookup_valid : Bool
  pub thread_lifecycle : ChatThreadLifecycle
  pub current_run_lifecycle : ChatTurnLifecycle
  pub current_run_id : Text
  pub last_run_id : Text
  pub capabilities : ChatCapabilitySet
  pub gateway_local : ChatGatewayLocalState
  pub active_pending : List ChatPendingRequest
  pub terminal : Option ChatTerminal
  pub last_event_id : ℕ

-- At most one of the payloads is there.
pub record ChatEvent : Type 0 where
  pub event_id : ℕ
  pub event_cursor : Text
  pub chat_id : Text
  pub session_group_id : Text
  pub workspace_id : Text
  pub run_id : Text
  pub created_at_unix_ms : ℕ
  pub status_updated : Option ChatStatus
  pub assistant_delta : Option AssistantDeltaEvent
  pub assistant_message_completed : Option AssistantMessageCompletedEvent
  pub pending_created : Option ChatPendingRequest
  pub pending_resolved : Option ChatPendingResolved
  pub terminal : Option ChatTerminal
  pub command_started : Option CommandStartedEvent
  pub command_output_delta : Option CommandOutputDeltaEvent
  pub gateway_warning : Option GatewayWarningEvent

pub data ChatReplayNoticeCode : Type 0 where
  start_evicted cursor_evicted unavailable_after_restart narrowed_to_live : ChatReplayNoticeCode

pub record ChatReplayNotice : Type 0 where
  pub code : ChatReplayNoticeCode
  pub message : String
  pub oldest_buffered_event_id : ℕ
  pub newest_buffered_event_id : ℕ
  pub from_start_available : Bool
  pub start_evicted_before_event_id : ℕ
  pub process_epoch : Text

pub record ChatNarrowedOutcome : Type 0 where
  pub reason : GatewayErrorReason
  pub display_message : String
  pub retryable : Bool

-- `other_kind` is any other text of the Go string type.
pub data ChatCursorKind : Type 0 where
  from_start after_event_id other_kind : ChatCursorKind

pub record StreamChatEventsCommand : Type 0 where
  pub session_group_id : Text
  pub workspace_id : Text
  pub chat_id : Text
  pub cursor_kind : ChatCursorKind
  pub after_event_id : ℕ
  pub after_event_cursor : Text
  pub client_subscriber_id : Text
