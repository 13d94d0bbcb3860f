-- ===== src/Chatruntime/Messages.antt =====
-- gateway/internal/chatruntime/stream.go: the messages of an event stream, with the status and the
-- cursor of service.go that they carry.
use codex_runtime.Base.{
  ℕ, Text, text_eq, ascii, Bool, true, false, ◌||◌, Option, none, some, [], if◌then◌else◌, String,
  ◌==◌, is_some,
}
use codex_runtime.Domain.{
  replay_unavailable, in_progress, completed, failed, interrupted, turn_unknown, ChatTurnLifecycle,
}
use codex_runtime.Domain.Chats.{
  ChatStatus, ChatCapabilitySet, supported, narrowed, thread_unknown, idle, active_running,
  ChatEvent, ChatReplayNotice, ChatReplayNoticeCode, start_evicted, cursor_evicted,
  unavailable_after_restart, narrowed_to_live, ChatNarrowedOutcome, StreamChatEventsCommand,
  ChatThreadLifecycle,
}
use codex_runtime.Chatstate.Types.{EventRecord, ReplayResult}
use codex_runtime.Chatstate.Keys.{is_empty}

pub record StreamChatEventsMessage : Type 0 where
  pub session_group_id : Text
  pub event : Option ChatEvent
  pub replay_notice : Option ChatReplayNotice
  pub narrowed : Option ChatNarrowedOutcome

pub record EventCursorEnvelope : Type 0 where
  pub epoch : Text
  pub chat_id : Text
  pub run_id : Text
  pub event_id : ℕ

-- What encoding/json and encoding/base64 do with a cursor: json.Marshal and json.Unmarshal, and
-- EncodeToString and DecodeString of base64.RawURLEncoding.
pub record CursorCodec : Type 0 where
  pub marshal : EventCursorEnvelope → Option Text
  pub unmarshal : Text → Option EventCursorEnvelope
  pub encode_to_string : Text → Text
  pub decode_string : Text → Option Text

unfoldable pub is_partial : EventCursorEnvelope → Bool
is_partial e = is_empty e.epoch || is_empty e.chat_id || is_empty e.run_id || e.event_id == 0

module _ (codec : CursorCodec) where
  unfoldable pub encode_cursor_envelope : EventCursorEnvelope → Text
  encode_cursor_envelope value = elim (codec.marshal value) [
    | none ↦ []
    | some raw ↦ codec.encode_to_string raw
  ]

  unfoldable pub decode_cursor_envelope : Text → Option EventCursorEnvelope
  decode_cursor_envelope cursor = elim (codec.decode_string cursor) [
    | none ↦ none
    | some raw ↦ codec.unmarshal raw
  ]

  unfoldable pub event_cursor : Text → Text → Text → ℕ → Text
  event_cursor epoch chat_id run_id event_id =
      let e : EventCursorEnvelope = record {
        epoch = epoch;
        chat_id = chat_id;
        run_id = run_id;
        event_id = event_id;
      } in
      if is_partial e then [] else encode_cursor_envelope e

  abbrev whole : Option EventCursorEnvelope → Option EventCursorEnvelope
  whole none = none
  whole (some e) = if is_partial e then none else some e

  unfoldable pub parse_event_cursor : Text → Option EventCursorEnvelope
  parse_event_cursor cursor = whole (decode_cursor_envelope cursor)

abbrev pub default_capabilities : ChatCapabilitySet
default_capabilities = record {
  status = supported;
  history = supported;
  event_stream = narrowed;
  replay = narrowed;
  pending = supported;
  interrupt = supported;
}

unfoldable pub base_chat_status : Text → Text → Text → Text → ChatStatus
base_chat_status session_group_id workspace_id chat_id epoch = record {
  chat_id = chat_id;
  session_group_id = session_group_id;
  workspace_id = workspace_id;
  lookup_valid = true;
  thread_lifecycle = thread_unknown;
  current_run_lifecycle = turn_unknown;
  current_run_id = [];
  last_run_id = [];
  capabilities = default_capabilities;
  gateway_local = record {
    live = false;
    replay_available = false;
    replay_unavailable = true;
    process_epoch = epoch;
  };
  active_pending = [];
  terminal = none;
  last_event_id = 0;
}

-- The state of an event is a text, of which these are the run states.
unfoldable pub turn_lifecycle_from_run_state : Text → ChatTurnLifecycle
turn_lifecycle_from_run_state state =
    if text_eq state (ascii "running")
      || text_eq state (ascii "starting")
      || text_eq state (ascii "pending")
      || text_eq state (ascii "interrupting")
    then in_progress
    else if text_eq state (ascii "completed")
    then completed
    else if text_eq state (ascii "interrupted")
    then interrupted
    else if text_eq state (ascii "failed")
    then failed
    else turn_unknown

abbrev thread_lifecycle_of : ChatTurnLifecycle → ChatThreadLifecycle
thread_lifecycle_of completed = idle
thread_lifecycle_of failed = idle
thread_lifecycle_of interrupted = idle
thread_lifecycle_of _ = active_running

unfoldable pub event_status : StreamChatEventsCommand → EventRecord → ChatStatus
event_status command e =
    let base =
      base_chat_status command.session_group_id command.workspace_id command.chat_id e.epoch in
    let lifecycle = turn_lifecycle_from_run_state e.state in
    record base {
      current_run_lifecycle = lifecycle;
      thread_lifecycle = thread_lifecycle_of lifecycle;
      current_run_id = e.run_scope.run_id;
      last_run_id = e.run_scope.run_id;
      last_event_id = e.event_id;
      gateway_local = record base.gateway_local {
        live = true;
        replay_available = true;
        replay_unavailable = false;
      };
    }

module _ (codec : CursorCodec) where
  unfoldable pub bare_event : EventRecord → ChatEvent
  bare_event e = record {
    event_id = e.event_id;
    event_cursor =
        event_cursor codec e.epoch e.run_scope.scope.chat_id e.run_scope.run_id e.event_id;
    chat_id = e.run_scope.scope.chat_id;
    session_group_id = e.run_scope.scope.session_group_id;
    workspace_id = e.run_scope.scope.workspace_id;
    run_id = e.run_scope.run_id;
    created_at_unix_ms = e.created_at_unix_ms;
    status_updated = none;
    assistant_delta = none;
    assistant_message_completed = none;
    pending_created = none;
    pending_resolved = none;
    terminal = none;
    command_started = none;
    command_output_delta = none;
    gateway_warning = none;
  }

  -- The switch on the payloads: the first that is there, or the status.
  unfoldable pub chat_event : EventRecord → ChatStatus → ChatEvent
  chat_event e status =
      let b = bare_event e in
      let p = e.payloads in
      if is_some p.assistant_delta
      then record b { assistant_delta = p.assistant_delta }
      else if is_some p.assistant_message_completed
      then record b { assistant_message_completed = p.assistant_message_completed }
      else if is_some p.pending_created
      then record b { pending_created = p.pending_created }
      else if is_some p.pending_resolved
      then record b { pending_resolved = p.pending_resolved }
      else if is_some p.terminal
      then record b { terminal = p.terminal }
      else if is_some p.command_started
      then record b { command_started = p.command_started }
      else if is_some p.command_output_delta
      then record b { command_output_delta = p.command_output_delta }
      else if is_some p.gateway_warning
      then record b { gateway_warning = p.gateway_warning }
      else record b { status_updated = some status }

  unfoldable pub event_record_message : Text → EventRecord → ChatStatus → StreamChatEventsMessage
  event_record_message session_group_id e status = record {
    session_group_id = session_group_id;
    event = some (chat_event e status);
    replay_notice = none;
    narrowed = none;
  }

unfoldable pub chat_replay_notice_message : ChatReplayNoticeCode → String
chat_replay_notice_message start_evicted =
    "the beginning of the chat event log is no longer buffered"
chat_replay_notice_message cursor_evicted = "the requested chat event cursor is no longer buffered"
chat_replay_notice_message narrowed_to_live = "chat event replay is narrowed to live events"
chat_replay_notice_message unavailable_after_restart =
    "chat event replay is unavailable in this gateway process"

unfoldable pub notice_message : StreamChatEventsCommand → ChatReplayNotice → StreamChatEventsMessage
notice_message command notice = record {
  session_group_id = command.session_group_id;
  event = none;
  replay_notice = some notice;
  narrowed = none;
}

unfoldable pub replay_unavailable_message : StreamChatEventsCommand → Text → StreamChatEventsMessage
replay_unavailable_message command epoch = notice_message command (record {
  code = unavailable_after_restart;
  message = "replay is unavailable in this gateway process";
  oldest_buffered_event_id = 0;
  newest_buffered_event_id = 0;
  from_start_available = false;
  start_evicted_before_event_id = 0;
  process_epoch = epoch;
})

unfoldable pub replay_notice_message :
    StreamChatEventsCommand → ChatReplayNoticeCode → ReplayResult → Text → StreamChatEventsMessage
replay_notice_message command code replay epoch = notice_message command (record {
  code = code;
  message = chat_replay_notice_message code;
  oldest_buffered_event_id = replay.oldest_buffered_event_id;
  newest_buffered_event_id = replay.newest_buffered_event_id;
  from_start_available = replay.from_start_available;
  start_evicted_before_event_id = replay.start_evicted_before_event_id;
  process_epoch = epoch;
})

unfoldable pub narrowed_stream_message : StreamChatEventsCommand → String → StreamChatEventsMessage
narrowed_stream_message command message = record {
  session_group_id = command.session_group_id;
  event = none;
  replay_notice = none;
  narrowed =
      some (record { reason = replay_unavailable; display_message = message; retryable = true });
}
