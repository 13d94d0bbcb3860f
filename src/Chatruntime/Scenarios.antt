-- ===== src/Chatruntime/Scenarios.antt =====
-- Streams over the histories of the chat store with few events.
use codex_runtime.Base.{
  ℕ, ◌+◌, ◌≡◌, refl, Text, text_eq, true, false, Option, none, some, [], ◌∷◌, ◌++◌, length, take,
  drop, lookup, insert, remove, refine, arith, u64, count_values,
}
use codex_runtime.Domain.Chats.{StreamChatEventsCommand, after_event_id}
use codex_runtime.Chatstate.Types.{RunRecord}
use codex_runtime.Chatstate.Keys.{active_run_key, replay_key, validate_run_scope, safe_label}
use codex_runtime.Chatstate.Store.{
  Store, Channel, open_channel, normalize_limits, new_store, cleanup,
}
use codex_runtime.Chatstate.Channels.{
  publish_event, publish_each, put_ids, subscribe, is_live, ids_of, contains,
}
use codex_runtime.Chatstate.Runs.{start_run, start_checked, new_run}
use codex_runtime.Chatstate.Replay.{
  over_limits, enforce_from, enforce_replay_limits, new_event, add_event, store_event,
  append_checked, append_event, newer, read_buffer, read_enforced, replay_found, replay_checked,
  replay,
}
use codex_runtime.Chatstate.Steps.Calls.{step, run}
use codex_runtime.Chatstate.Buffers.Log.{logged}
use codex_runtime.Chatstate.Scenarios.{s₁, few, epoch_text, empty_store, chat, events, event_at}
use codex_runtime.Chatstate.Failures.{replay_out_of_range}
use codex_runtime.Chatruntime.Messages.{CursorCodec, EventCursorEnvelope, bare_event}
use codex_runtime.Chatruntime.Starts.{Start, chat_of}
use codex_runtime.Chatruntime.Opening.{
  opened_stream, event_messages, replay_messages, replay_into, open_run,
}
use codex_runtime.Chatruntime.Deliveries.{deliver, deliver-newer}
use codex_runtime.Chatruntime.Positions.{IsAnnounced, run_scope_of, open_run-IsAnnounced}
use codex_runtime.Chatruntime.Refusals.{SameSubscribers, is_refused, open_run-refused}

-- A cursor is here the lengths of its texts, the id and the texts.
abbrev decode : Text → Option EventCursorEnvelope
decode (a ∷ b ∷ c ∷ n ∷ rest) = some (record {
  epoch = take a rest;
  chat_id = take b (drop a rest);
  run_id = take c (drop b (drop a rest));
  event_id = n;
})
decode _ = none

abbrev codec : CursorCodec
codec = record {
  marshal = λ e. some (
      length e.epoch
      ∷ length e.chat_id
      ∷ length e.run_id
      ∷ e.event_id
      ∷ (e.epoch ++ (e.chat_id ++ (e.run_id ++ []))));
  unmarshal = decode;
  encode_to_string = λ raw. raw;
  decode_string = λ cursor. some cursor;
}

abbrev command : StreamChatEventsCommand
command = record {
  session_group_id = 103 ∷ [];
  workspace_id = 119 ∷ [];
  chat_id = 2 ∷ [];
  cursor_kind = after_event_id;
  after_event_id = 0;
  after_event_cursor = (bare_event codec (event_at 2 3)).event_cursor;
  client_subscriber_id = [];
}

abbrev start : ℕ → Start
start after = record { epoch = 101 ∷ []; run_id = 114 ∷ []; after_event_id = after }

abbrev active_here : RunRecord
active_here = new_run 0 (chat 2) []

open_run-IsAnnounced_example :
    IsAnnounced codec command
      (newer 3 (logged (replay_key (run_scope_of command (start 3))) empty_store events))
      (open_run codec s₁ s₁ command (start 3) (some active_here) (run empty_store events)).1
open_run-IsAnnounced_example =
    open_run-IsAnnounced codec command epoch_text s₁ [] few events s₁ s₁ (start 3)
      (some active_here) (omega arith)

abbrev channel : Channel
channel = record { status = open_channel; capacity = 8; queue = event_at 2 2 ∷ event_at 2 3 ∷ [] }

deliver-newer_example :
    deliver codec
      (length (newer 1 (event_at 2 1 ∷ event_at 2 2 ∷ [])) + 1)
      (opened_stream codec command
        (record { scope = chat_of command; run_id = 114 ∷ [] })
        (some 1)
        (event_messages codec command (newer 1 (event_at 2 1 ∷ event_at 2 2 ∷ []))))
      channel
    ≡ event_messages codec command (newer 1 (event_at 2 1 ∷ event_at 2 2 ∷ event_at 2 3 ∷ []))
unfolding new_event
deliver-newer_example =
    deliver-newer codec command (114 ∷ []) 1 1 1 (event_at 2 1 ∷ []) (event_at 2 2 ∷ [])
      (event_at 2 3 ∷ []) channel (omega arith, (omega arith, (omega arith, tt)))
      (omega arith, (omega arith, tt)) refl (omega arith)

abbrev active_record : RunRecord
active_record = new_run s₁ (chat 2) []

abbrev running_store : Store
running_store = (start_run s₁ s₁ (chat 2) [] (run empty_store events)).0

new_subscriber :
    contains (u64 (running_store.next_subscriber_id + 1)) (
      ids_of (
        lookup
          (replay_key (record { scope = chat_of command; run_id = 114 ∷ [] }))
          running_store.subscribers))
    ≡ false
unfolding start_run start_checked new_run run step new_store normalize_limits append_event
    append_checked store_event add_event new_event enforce_replay_limits enforce_from over_limits
    publish_event publish_each put_ids validate_run_scope replay_key active_run_key safe_label
    lookup insert remove refine text_eq cleanup count_values
new_subscriber = refl

beyond_refused :
    is_refused (open_run codec s₁ s₁ command (start 9) (some active_record) running_store).1 ≡ true
unfolding start_run start_checked new_run run step new_store normalize_limits append_event
    append_checked store_event add_event new_event enforce_replay_limits enforce_from over_limits
    publish_event publish_each put_ids validate_run_scope replay_key active_run_key safe_label
    lookup insert remove refine text_eq cleanup count_values open_run subscribe is_live replay_into
    replay_messages replay replay_checked replay_found read_enforced read_buffer replay_out_of_range
beyond_refused = refl

open_run-refused_example :
    SameSubscribers running_store
      (open_run codec s₁ s₁ command (start 9) (some active_record) running_store).0
open_run-refused_example =
    open_run-refused codec s₁ s₁ command (start 9) (some active_record) running_store new_subscriber
      beyond_refused
