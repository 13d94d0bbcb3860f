-- ===== src/Chatruntime/Starts.antt =====
-- gateway/internal/chatruntime: the checks and the start of a stream, in stream.go, service.go and errors.go.
use codex_runtime.Base.{
  ℕ, Text, text_eq, Bool, true, false, not, ◌&&◌, Option, none, some, [], Map, lookup,
  if◌then◌else◌, Result, ok, err, String,
}
use codex_runtime.Domain.{
  GatewayError, GatewayErrorCode, GatewayErrorReason, invalid_argument, not_found, out_of_range,
  canceled, deadline_exceeded, unknown_session_group, workspace_mismatch, replay_out_of_range,
  caller_canceled, caller_deadline_exceeded,
}
use codex_runtime.Domain as Domain
use codex_runtime.Domain.Chats.{StreamChatEventsCommand, ChatCursorKind, after_event_id}
use codex_runtime.Chatstate.Types.{Cursor, RunRecord, Scope}
use codex_runtime.Chatstate.Keys.{is_empty}
use codex_runtime.Chatruntime.Messages.{CursorCodec, EventCursorEnvelope, parse_event_cursor}

-- The context's error, if it has one.
pub data ContextError : Type 0 where
  context_canceled context_deadline_exceeded context_other : ContextError

-- An error with a reason and the ids that it is about.
abbrev pub failure : GatewayErrorCode → GatewayErrorReason → String → Text → Text → GatewayError
failure code reason display session_group_id thread_id = record {
  code = code;
  details = record {
    reason = reason;
    display_message = display;
    task_id = [];
    session_group_id = session_group_id;
    client_message_id = [];
    client_response_id = [];
    pending_request_id = [];
    thread_id = thread_id;
    retryable = false;
  };
}

abbrev pub invalid_stream_request : Text → String → GatewayError
invalid_stream_request session_group_id display =
    failure invalid_argument Domain.invalid_request display session_group_id []

abbrev pub cursor_out_of_range : Text → Text → String → GatewayError
cursor_out_of_range session_group_id chat_id display =
    failure out_of_range replay_out_of_range display session_group_id chat_id

unfoldable pub caller_error_from_context : Option ContextError → Text → Option GatewayError
caller_error_from_context none session_group_id = none
caller_error_from_context (some context_canceled) session_group_id =
    some (failure canceled caller_canceled "caller canceled" session_group_id [])
caller_error_from_context (some context_deadline_exceeded) session_group_id = some (
    failure deadline_exceeded caller_deadline_exceeded "caller deadline exceeded" session_group_id
      [])
caller_error_from_context (some context_other) session_group_id = none

-- The sessions of the service: the workspace of each session group.
abbrev in_session : Text → Text → Text → Option Text → Result GatewayError Text
in_session session_group_id workspace_id chat_id none =
    err (failure not_found unknown_session_group "unknown session group" session_group_id [])
in_session session_group_id workspace_id chat_id (some own) =
    if not (is_empty workspace_id) && not (text_eq workspace_id own)
    then err (
        failure invalid_argument workspace_mismatch "workspace does not match session group"
          session_group_id [])
    else if is_empty chat_id
    then err (invalid_stream_request session_group_id "chat_id is required")
    else ok own

-- prepareChatLookup: the workspace of the chat.
unfoldable pub prepare_chat_lookup : Map Text → Text → Text → Text → Result GatewayError Text
prepare_chat_lookup sessions session_group_id workspace_id chat_id =
    in_session session_group_id workspace_id chat_id (lookup session_group_id sessions)

-- Where the stream begins: an epoch, a run, and the id of the last event that the client has.
pub record Start : Type 0 where
  pub epoch : Text
  pub run_id : Text
  pub after_event_id : ℕ

abbrev is_after_event_id : ChatCursorKind → Bool
is_after_event_id after_event_id = true
is_after_event_id _ = false

abbrev from_parsed :
    StreamChatEventsCommand → Option EventCursorEnvelope → Result GatewayError Start
from_parsed command none =
    err (invalid_stream_request command.session_group_id "event cursor is invalid")
from_parsed command (some parsed) =
    if not (text_eq parsed.chat_id command.chat_id)
    then err (
        cursor_out_of_range command.session_group_id command.chat_id
          "event cursor is outside this chat")
    else ok
        (record { epoch = parsed.epoch; run_id = parsed.run_id; after_event_id = parsed.event_id })

unfoldable pub start_of : CursorCodec → StreamChatEventsCommand → Text → Result GatewayError Start
start_of codec command epoch =
    if is_after_event_id command.cursor_kind && not (is_empty command.after_event_cursor)
    then from_parsed command (parse_event_cursor codec command.after_event_cursor)
    else ok (record { epoch = epoch; run_id = []; after_event_id = command.after_event_id })

abbrev pub chat_of : StreamChatEventsCommand → Scope
chat_of command = record {
  session_group_id = command.session_group_id;
  workspace_id = command.workspace_id;
  chat_id = command.chat_id;
}

abbrev pub run_of : Option RunRecord → Text
run_of none = []
run_of (some r) = r.run_id

abbrev pub cursor_of : StreamChatEventsCommand → Start → Cursor
cursor_of command start = record {
  epoch = start.epoch;
  session_group_id = command.session_group_id;
  workspace_id = command.workspace_id;
  chat_id = command.chat_id;
  run_id = start.run_id;
  after_event_id = start.after_event_id;
}
