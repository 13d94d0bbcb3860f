-- ===== src/Chatstate/Scenarios.antt =====
-- Short histories of a chat store that keeps few events, and what its theorems say of them.
mod Replays
mod Requests
use codex_runtime.Base.{
  ℕ, ◌≡◌, refl, Text, text_eq, pos, false, none, List, [], ◌∷◌, lookup, insert, remove, refine,
  keep_if, ok, arith,
}
use codex_runtime.Domain.{no_reason}
use codex_runtime.Chatstate.Types.{
  LimitOptions, RunScope, Payloads, EventInput, EventRecord, Cursor, ReplayResult,
}
use codex_runtime.Chatstate.Keys.{active_run_key, replay_key, validate_run_scope, safe_label}
use codex_runtime.Chatstate.Store.{Store, normalize_limits, new_store, cleanup}
use codex_runtime.Chatstate.Channels.{publish_event, publish_each, put_ids}
use codex_runtime.Chatstate.Replay.{
  over_limits, enforce_from, enforce_replay_limits, new_event, add_event, store_event,
  append_checked, append_event, newer, read_buffer, read_enforced, replay_found, replay_checked,
  replay,
}
use codex_runtime.Chatstate.Steps.Calls.{Call, appends_event, step, run}
use codex_runtime.Chatstate.Buffers.Log.{logged}
use codex_runtime.Chatstate.Buffers.Complete.{replay_complete}

-- One second.
abbrev pub s₁ : ℕ
s₁ = 1000000000

-- Two events at most in a buffer, one run, one open request.
abbrev pub few : LimitOptions
few = record {
  replay_max_events = pos 2;
  replay_max_bytes = pos 100;
  replay_ttl = pos 0;
  pending_ttl = pos 0;
  diagnostics_cap = pos 1;
  active_runs_cap = pos 2;
  pending_cap = pos 1;
  idempotency_cap = pos 1;
  subscriber_queue = pos 1;
}

abbrev pub epoch_text : ℕ → Text
epoch_text n = 101 ∷ []

abbrev pub empty_store : Store
empty_store = new_store epoch_text s₁ [] few

abbrev pub chat : ℕ → RunScope
chat n = record {
  scope = record { session_group_id = 103 ∷ []; workspace_id = 119 ∷ []; chat_id = n ∷ [] };
  run_id = 114 ∷ [];
}

abbrev no_payloads : Payloads
no_payloads = record {
  assistant_delta = none;
  assistant_message_completed = none;
  pending_created = none;
  pending_resolved = none;
  terminal = none;
  command_started = none;
  command_output_delta = none;
  gateway_warning = none;
}

abbrev pub event_of : ℕ → EventInput
event_of n = record {
  run_scope = chat n;
  kind = 107 ∷ [];
  state = 115 ∷ [];
  reason = no_reason;
  payloads = no_payloads;
  size_bytes = pos 10;
}

abbrev pub appends : ℕ → Call
appends n = appends_event s₁ s₁ s₁ (event_of n)

-- Two chats' events, interleaved: the second chat's have the ids 2, 3 and 4.
abbrev pub events : List Call
events = appends 1 ∷ appends 2 ∷ appends 2 ∷ appends 2 ∷ []

abbrev pub cursor_at : ℕ → ℕ → Cursor
cursor_at n after = record {
  epoch = 101 ∷ [];
  session_group_id = 103 ∷ [];
  workspace_id = 119 ∷ [];
  chat_id = n ∷ [];
  run_id = 114 ∷ [];
  after_event_id = after;
}

abbrev pub event_at : ℕ → ℕ → EventRecord
event_at n id = new_event s₁ id (event_of n) 10 (101 ∷ [])

abbrev pub after_three : ReplayResult
after_three = record {
  events = event_at 2 4 ∷ [];
  oldest_buffered_event_id = 3;
  newest_buffered_event_id = 4;
  from_start_available = false;
  start_evicted_before_event_id = 3;
}

pub events-replay : (replay s₁ s₁ (cursor_at 2 3) (run empty_store events)).1 ≡ ok after_three
unfolding replay run step new_store normalize_limits append_event append_checked store_event
    add_event new_event enforce_replay_limits enforce_from over_limits publish_event publish_each
    put_ids validate_run_scope replay_key active_run_key safe_label lookup insert remove refine
    text_eq cleanup replay_checked replay_found read_enforced read_buffer newer keep_if
events-replay = refl

replay_complete_example :
    after_three.events ≡ newer 3 (logged (replay_key (chat 2)) empty_store events)
replay_complete_example =
    replay_complete epoch_text s₁ [] few events s₁ s₁ (cursor_at 2 3) after_three (omega arith)
      events-replay (λ h. ground arith)
