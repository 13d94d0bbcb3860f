-- ===== src/Chatruntime/Opening.antt =====
-- gateway/internal/chatruntime/stream.go: StreamChatEvents, over the chat store.
use codex_runtime.Base.{
  ℕ, Text, text_eq, false, not, ◌&&◌, Option, none, some, List, [], ◌∷◌, Map, ◌==◌, if◌then◌else◌,
  Result, ok, err, is_some,
}
use codex_runtime.Domain.{GatewayError}
use codex_runtime.Domain.Chats.{StreamChatEventsCommand, start_evicted, cursor_evicted}
use codex_runtime.Chatstate.Types.{
  Cursor, EventRecord, ReplayError, ReplayResult, RunRecord, RunScope, Scope, ReplayFailureKind,
}
use codex_runtime.Chatstate.Types as Types
use codex_runtime.Chatstate.Keys.{is_empty}
use codex_runtime.Chatstate.Store.{Store}
use codex_runtime.Chatstate.Channels.{subscribe, unsubscribe}
use codex_runtime.Chatstate.Runs.{active_run}
use codex_runtime.Chatstate.Replay.{replay}
use codex_runtime.Chatruntime.Messages.{
  CursorCodec, StreamChatEventsMessage, event_record_message, event_status,
  replay_unavailable_message, replay_notice_message, narrowed_stream_message,
}
use codex_runtime.Chatruntime.Streams.{ChatEventStream}
use codex_runtime.Chatruntime.Starts.{
  ContextError, cursor_out_of_range, caller_error_from_context, prepare_chat_lookup, Start,
  start_of, chat_of, run_of, cursor_of,
}

-- What Replay returns beside an error.
abbrev pub empty_result : ReplayResult
empty_result = record {
  events = [];
  oldest_buffered_event_id = 0;
  newest_buffered_event_id = 0;
  from_start_available = false;
  start_evicted_before_event_id = 0;
}

abbrev pub leave : RunScope → Option ℕ → Store → Store
leave scope none s = s
leave scope (some id) s = unsubscribe scope id s

abbrev no_run : RunScope
no_run = record {
  scope = record { session_group_id = []; workspace_id = []; chat_id = [] };
  run_id = [];
}

-- The switch on how a replay failed.
abbrev pub failed_messages :
    StreamChatEventsCommand → Text → ReplayFailureKind → Option (List StreamChatEventsMessage)
failed_messages command epoch Types.cursor_evicted =
    some (replay_notice_message command cursor_evicted empty_result epoch ∷ [])
failed_messages command epoch Types.out_of_range = none
failed_messages command epoch Types.unavailable_after_restart =
    some (replay_unavailable_message command epoch ∷ [])

module _ (codec : CursorCodec) where
  abbrev pub opened_stream :
      StreamChatEventsCommand → RunScope → Option ℕ → List StreamChatEventsMessage → ChatEventStream
  opened_stream command scope live messages = record {
    replay = messages;
    live = live;
    scope = scope;
    last_sent_id = 0;
    closed_once = false;
    close_func = live;
    command = command;
  }

  unfoldable pub event_messages :
      StreamChatEventsCommand → List EventRecord → List StreamChatEventsMessage
  event_messages command [] = []
  event_messages command (e ∷ events) =
      event_record_message codec command.session_group_id e (event_status command e)
      ∷ event_messages command events

  -- The messages of a replay, or `none` where the cursor is out of range.
  unfoldable pub replay_messages :
      StreamChatEventsCommand
      → ℕ
      → Text
      → Result ReplayError ReplayResult
      → Option (List StreamChatEventsMessage)
  replay_messages command after epoch (err e) = failed_messages command epoch e.kind
  replay_messages command after epoch (ok r) =
      let events = event_messages command r.events in
      some (
        if not r.from_start_available && after == 0
        then replay_notice_message command start_evicted r epoch ∷ events
        else events)

  -- `cleanup_at` and `enforce_at` are the two readings of the clock that Replay makes.
  abbrev pub after_replay :
      StreamChatEventsCommand
      → RunScope
      → Option ℕ
      → Store
      → Option (List StreamChatEventsMessage)
      → Store × Result GatewayError ChatEventStream
  after_replay command scope live s none = (
    leave scope live s,
    err (
        cursor_out_of_range command.session_group_id command.chat_id
          "event cursor is outside the buffered range"),
  )
  after_replay command scope live s (some messages) =
      (s, ok (opened_stream command scope live messages))

  unfoldable pub replay_into :
      ℕ
      → ℕ
      → StreamChatEventsCommand
      → Start
      → RunScope
      → Option ℕ
      → Store
      → Store × Result GatewayError ChatEventStream
  replay_into cleanup_at enforce_at command start scope live s =
      let (t, result) = replay cleanup_at enforce_at (cursor_of command start) s in
      after_replay command scope live t
        (replay_messages command start.after_event_id t.epoch result)

  abbrev pub with_live :
      ℕ
      → ℕ
      → StreamChatEventsCommand
      → Start
      → RunScope
      → Store
      → Result GatewayError (Option ℕ)
      → Store × Result GatewayError ChatEventStream
  with_live cleanup_at enforce_at command start scope s (err e) = (s, err e)
  with_live cleanup_at enforce_at command start scope s (ok live) =
      replay_into cleanup_at enforce_at command start scope live s

  -- The stream of a run, followed live where the run is the active one.
  unfoldable pub open_run :
      ℕ
      → ℕ
      → StreamChatEventsCommand
      → Start
      → Option RunRecord
      → Store
      → Store × Result GatewayError ChatEventStream
  open_run cleanup_at enforce_at command start active s =
      let scope : RunScope = record { scope = chat_of command; run_id = start.run_id } in
      let (t, live) = subscribe scope s in
      if is_some active && text_eq (run_of active) start.run_id
      then with_live cleanup_at enforce_at command start scope t live
      else replay_into cleanup_at enforce_at command start scope none s

  abbrev started :
      ℕ
      → ℕ
      → StreamChatEventsCommand
      → Option RunRecord
      → Store
      → Result GatewayError Start
      → Store × Result GatewayError ChatEventStream
  started cleanup_at enforce_at command active s (err e) = (s, err e)
  started cleanup_at enforce_at command active s (ok start) =
      let known = record start {
        run_id = if is_empty start.run_id then run_of active else start.run_id;
      } in
      if is_empty known.run_id
      then (
        s,
        ok (
            opened_stream command no_run none (
              narrowed_stream_message command "no active chat run is known in this gateway process"
              ∷ [])),
      )
      else open_run cleanup_at enforce_at command known active s

  abbrev looked_up :
      Option ContextError
      → ℕ
      → ℕ
      → StreamChatEventsCommand
      → Store
      → Result GatewayError Text
      → Store × Result GatewayError ChatEventStream
  looked_up context cleanup_at enforce_at command s (err e) = (s, err e)
  looked_up context cleanup_at enforce_at command s (ok workspace_id) =
      let own = record command { workspace_id = workspace_id } in
      elim (caller_error_from_context context own.session_group_id) [
        | some e ↦ (s, err e)
        | none ↦
            started cleanup_at enforce_at own (active_run (chat_of own) s) s
              (start_of codec own s.epoch)
      ]

  unfoldable pub stream_chat_events :
      Map Text
      → Option ContextError
      → ℕ
      → ℕ
      → StreamChatEventsCommand
      → Store
      → Store × Result GatewayError ChatEventStream
  stream_chat_events sessions context cleanup_at enforce_at command s =
      looked_up context cleanup_at enforce_at command s
        (prepare_chat_lookup sessions command.session_group_id command.workspace_id command.chat_id)
