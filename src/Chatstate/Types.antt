-- ===== src/Chatstate/Types.antt =====
-- gateway/internal/chatstate/types.go. Times are nanoseconds since the Unix epoch, and those
-- called `unix_ms` are milliseconds; a Go `nil` pointer is `none`.
use codex_runtime.Base.{ℕ, Text, ℤ, Bool, Option, List, String}
use codex_runtime.Domain.{
  GatewayErrorReason, AssistantDeltaEvent, AssistantMessageCompletedEvent, ChatPendingRequest,
  ChatPendingResolved, ChatTerminal, CommandStartedEvent, CommandOutputDeltaEvent,
  GatewayWarningEvent,
}

-- What the caller configures; a value that is not positive asks for the default.
pub record LimitOptions : Type 0 where
  pub replay_max_events : ℤ
  pub replay_max_bytes : ℤ
  pub replay_ttl : ℤ
  pub pending_ttl : ℤ
  pub diagnostics_cap : ℤ
  pub active_runs_cap : ℤ
  pub pending_cap : ℤ
  pub idempotency_cap : ℤ
  pub subscriber_queue : ℤ

-- The same after `normalizeLimits`, which leaves no negative value.
pub record Limits : Type 0 where
  pub replay_max_events : ℕ
  pub replay_max_bytes : ℕ
  pub replay_ttl : ℕ
  pub pending_ttl : ℕ
  pub diagnostics_cap : ℕ
  pub active_runs_cap : ℕ
  pub pending_cap : ℕ
  pub idempotency_cap : ℕ
  pub subscriber_queue : ℕ

pub record Scope : Type 0 where
  pub session_group_id : Text
  pub workspace_id : Text
  pub chat_id : Text

pub record RunScope : Type 0 where
  pub scope : Scope
  pub open scope use *
  pub run_id : Text

pub data RunState : Type 0 where
  starting running pending interrupting completed failed interrupted : RunState

pub record RunRecord : Type 0 where
  pub scope : Scope
  pub run_id : Text
  pub state : RunState
  pub idempotency_key : Text
  pub started_at_unix_ms : ℕ
  pub updated_at_unix_ms : ℕ

-- The eight optional payloads that an event input and an event record both hold.
pub record Payloads : Type 0 where
  pub assistant_delta : Option AssistantDeltaEvent
  pub assistant_message_completed : Option AssistantMessageCompletedEvent
  pub pending_created : Option ChatPendingRequest
  pub pending_resolved : Option ChatPendingResolved
  pub terminal : Option ChatTerminal
  pub command_started : Option CommandStartedEvent
  pub command_output_delta : Option CommandOutputDeltaEvent
  pub gateway_warning : Option GatewayWarningEvent

pub record EventInput : Type 0 where
  pub run_scope : RunScope
  pub kind : Text
  pub state : Text
  pub reason : GatewayErrorReason
  pub payloads : Payloads
  pub size_bytes : ℤ

pub record EventRecord : Type 0 where
  pub event_id : ℕ
  pub epoch : Text
  pub run_scope : RunScope
  pub kind : Text
  pub state : Text
  pub reason : GatewayErrorReason
  pub payloads : Payloads
  pub created_at_unix_ms : ℕ
  pub size_bytes : ℕ

pub record Cursor : Type 0 where
  pub epoch : Text
  pub session_group_id : Text
  pub workspace_id : Text
  pub chat_id : Text
  pub run_id : Text
  pub after_event_id : ℕ

pub record ReplayResult : Type 0 where
  pub events : List EventRecord
  pub oldest_buffered_event_id : ℕ
  pub newest_buffered_event_id : ℕ
  pub from_start_available : Bool
  pub start_evicted_before_event_id : ℕ

pub data ReplayFailureKind : Type 0 where
  unavailable_after_restart cursor_evicted out_of_range : ReplayFailureKind

pub record ReplayError : Type 0 where
  pub kind : ReplayFailureKind
  pub cursor : Cursor
  pub message : String

pub data PendingStatus : Type 0 where
  active claimed resolved expired : PendingStatus

pub record PendingInput : Type 0 where
  pub run_scope : RunScope
  pub pending_request_id : Text
  pub ttl : ℤ
  pub reason : GatewayErrorReason

pub record PendingRecord : Type 0 where
  pub run_scope : RunScope
  pub pending_request_id : Text
  pub status : PendingStatus
  pub reason : GatewayErrorReason
  pub created_at_unix_ms : ℕ
  pub expires_at_unix_ms : ℕ
  pub resolved_at_unix_ms : ℕ

-- A string type of the source: its named values are among these, and so is the empty text.
abbrev pub Operation : Type 0
Operation = Text

pub record IdempotencyScope : Type 0 where
  pub operation : Operation
  pub session_group_id : Text
  pub workspace_id : Text
  pub chat_id : Text
  pub pending_request_id : Text
  pub client_message_id : Text
  pub key : Text

pub data IdempotencyState : Type 0 where
  in_flight succeeded failed : IdempotencyState

pub record IdempotencyResultRef : Type 0 where
  pub chat_id : Text
  pub run_id : Text
  pub status : Text
  pub last_event_id : ℕ
  pub event_cursor : Text

pub record IdempotencyEntry : Type 0 where
  pub scope : IdempotencyScope
  pub state : IdempotencyState
  pub result : IdempotencyResultRef
  pub created_at_unix_ms : ℕ
  pub updated_at_unix_ms : ℕ

pub record DiagnosticRecord : Type 0 where
  pub created_at_unix_ms : ℕ
  pub session_group_id : Text
  pub workspace_id : Text
  pub chat_id : Text
  pub run_id : Text
  pub request_id : Text
  pub state : Text
  pub reason : GatewayErrorReason
