-- ===== src/Chatstate/Replay.antt =====
-- gateway/internal/chatstate/store.go: the events of a run, buffered for replay. `buffer.bytes` is
-- an int64 that wraps, written as the number modulo 2^64 that it is: from 2^63 on it is negative.
use codex_runtime.Base.{
  ℕ, ◌+◌, ◌-◌, ℤ, pos, negsuc, u64, Text, text_eq, Bool, ◌&&◌, ◌||◌, not, Option, none, some, List,
  [], ◌∷◌, ◌++◌, lookup, insert, remove, keep_if, length, ltb, ◌==◌, if◌then◌else◌, Result, ok, err,
}
use codex_runtime.Domain.{GatewayError}
use codex_runtime.Chatstate.Types.{
  Limits, RunScope, EventInput, EventRecord, Payloads, Cursor, ReplayResult, ReplayError,
}
use codex_runtime.Chatstate.Failures.{
  invalid_request, replay_unavailable_after_restart, replay_cursor_evicted, replay_out_of_range,
}
use codex_runtime.Chatstate.Keys.{replay_key, validate_run_scope, safe_label}
use codex_runtime.Chatstate.Store.{Store, ReplayBuffer, unix_ms, of_unix_ms, cleanup}
use codex_runtime.Chatstate.Channels.{publish_event}

-- The eight `clone…` functions: nil stays nil, and else a copy is made.
abbrev clone : {A : Type 0} → Option A → Option A
clone none = none
clone (some a) = some a

abbrev clone_payloads : Payloads → Payloads
clone_payloads p = record {
  assistant_delta = clone p.assistant_delta;
  assistant_message_completed = clone p.assistant_message_completed;
  pending_created = clone p.pending_created;
  pending_resolved = clone p.pending_resolved;
  terminal = clone p.terminal;
  command_started = clone p.command_started;
  command_output_delta = clone p.command_output_delta;
  gateway_warning = clone p.gateway_warning;
}

-- The sum and the difference of two int64, and whether an int64 is more than one that is not negative.
abbrev pub int64_add : ℕ → ℕ → ℕ
int64_add a b = u64 (a + b)

abbrev pub int64_sub : ℕ → ℕ → ℕ
int64_sub a b = u64 (a + (18446744073709551616 - b))

abbrev pub int64_exceeds : ℕ → ℕ → Bool
int64_exceeds a limit = ltb a 9223372036854775808 && ltb limit a

-- Whether the oldest event has to go: too many events, too many bytes, or it is too old.
unfoldable pub over_limits : Limits → ℕ → EventRecord → ℕ → ℕ → Bool
over_limits limits now oldest count bytes =
    ltb limits.replay_max_events count
    || int64_exceeds bytes limits.replay_max_bytes
    || ltb (of_unix_ms oldest.created_at_unix_ms + limits.replay_ttl) now

abbrev pub buffer_of : List EventRecord → ℕ → ℕ → ReplayBuffer
buffer_of events bytes start_evicted_before_event_id = record {
  events = events;
  bytes = bytes;
  start_evicted_before_event_id = start_evicted_before_event_id;
}

-- The loop of `enforceReplayLimitsLocked` over the buffer's three fields.
unfoldable pub enforce_from : Limits → ℕ → List EventRecord → ℕ → ℕ → ReplayBuffer
enforce_from limits now [] bytes start = buffer_of [] bytes start
enforce_from limits now (oldest ∷ rest) bytes start =
    let evicted =
      enforce_from limits now rest (int64_sub bytes oldest.size_bytes)
        (u64 (oldest.event_id + 1)) in
    if over_limits limits now oldest (length (oldest ∷ rest)) bytes
    then evicted
    else buffer_of (oldest ∷ rest) bytes start

unfoldable pub enforce_replay_limits : Limits → ℕ → ReplayBuffer → ReplayBuffer
enforce_replay_limits limits now b =
    enforce_from limits now b.events b.bytes b.start_evicted_before_event_id

abbrev pub empty_buffer : ReplayBuffer
empty_buffer = buffer_of [] 0 0

abbrev pub buffer_or_new : Option ReplayBuffer → ReplayBuffer
buffer_or_new none = empty_buffer
buffer_or_new (some b) = b

unfoldable pub new_event : ℕ → ℕ → EventInput → ℕ → Text → EventRecord
new_event created_at event_id input size_bytes epoch = record {
  event_id = event_id;
  epoch = epoch;
  run_scope = input.run_scope;
  kind = safe_label input.kind;
  state = safe_label input.state;
  reason = input.reason;
  payloads = clone_payloads input.payloads;
  created_at_unix_ms = unix_ms created_at;
  size_bytes = size_bytes;
}

-- `append(buffer.events, record)` and `buffer.bytes += record.SizeBytes`
unfoldable pub add_event : EventRecord → ReplayBuffer → ReplayBuffer
add_event event b = record b {
  events = b.events ++ (event ∷ []);
  bytes = int64_add b.bytes event.size_bytes;
}

-- The part of AppendEvent that stores the event, before it is published.
unfoldable pub store_event : ℕ → EventRecord → Store → Store
store_event enforce_at event s =
    let key = replay_key event.run_scope in
    record s {
      next_event_id = event.event_id;
      replay =
          insert key
            (enforce_replay_limits s.limits enforce_at
              (add_event event (buffer_or_new (lookup key s.replay))))
            s.replay;
    }

unfoldable pub append_checked :
    ℕ → ℕ → EventInput → ℕ → Store → Store × Result GatewayError EventRecord
append_checked created_at enforce_at input size_bytes s =
    let event = new_event created_at (u64 (s.next_event_id + 1)) input size_bytes s.epoch in
    (publish_event (replay_key input.run_scope) event (store_event enforce_at event s), ok event)

abbrev pub append_sized :
    ℕ → ℕ → ℕ → EventInput → ℤ → Store → Store × Result GatewayError EventRecord
append_sized cleanup_at created_at enforce_at input (pos size) s =
    append_checked created_at enforce_at input size (cleanup cleanup_at s)
append_sized cleanup_at created_at enforce_at input (negsuc n) s =
    (s, err (invalid_request "event size must not be negative" input.run_scope.scope))

unfoldable pub append_event :
    ℕ → ℕ → ℕ → EventInput → Store → Store × Result GatewayError EventRecord
append_event cleanup_at created_at enforce_at input s = elim (validate_run_scope input.run_scope) [
  | some e ↦ (s, err e)
  | none ↦ append_sized cleanup_at created_at enforce_at input input.size_bytes s
]

-- `events[len(events)-1].EventID` of a list that starts with an event.
abbrev pub last_id : EventRecord → List EventRecord → ℕ
last_id e [] = e.event_id
last_id e (f ∷ rest) = last_id f rest

unfoldable pub newer : ℕ → List EventRecord → List EventRecord
newer after = keep_if (λ e. ltb after e.event_id)

abbrev pub scope_of : Cursor → RunScope
scope_of cursor = record {
  scope = record {
    session_group_id = cursor.session_group_id;
    workspace_id = cursor.workspace_id;
    chat_id = cursor.chat_id;
  };
  run_id = cursor.run_id;
}

-- `OldestBufferedEventID-1`, which wraps at 0.
abbrev pub before : ℕ → ℕ
before id = u64 (id + 18446744073709551615)

-- The answer from a buffer that is not empty.
unfoldable pub read_buffer :
    Cursor → EventRecord → List EventRecord → ℕ → Result ReplayError ReplayResult
read_buffer cursor oldest rest start =
    let after = cursor.after_event_id in
    if ltb after (before oldest.event_id) && not (after == 0 && not (start == 0))
    then err (replay_cursor_evicted cursor)
    else if ltb (last_id oldest rest) after
    then err (replay_out_of_range cursor)
    else ok (record {
      events = newer after (oldest ∷ rest);
      oldest_buffered_event_id = oldest.event_id;
      newest_buffered_event_id = last_id oldest rest;
      from_start_available = start == 0;
      start_evicted_before_event_id = start;
    })

-- Replay once the buffer's limits are enforced: an empty buffer is deleted.
unfoldable pub read_enforced :
    Cursor → ReplayBuffer → Store → Store × Result ReplayError ReplayResult
read_enforced cursor b s = elim b.events [
  | [] ↦ (
    record s { replay = remove (replay_key (scope_of cursor)) s.replay },
    err (replay_unavailable_after_restart cursor),
  )
  | oldest ∷ rest ↦ (
    record s { replay = insert (replay_key (scope_of cursor)) b s.replay },
    read_buffer cursor oldest rest b.start_evicted_before_event_id,
  )
]

unfoldable pub replay_found :
    ℕ → Cursor → ReplayBuffer → Store → Store × Result ReplayError ReplayResult
replay_found enforce_at cursor b s = elim b.events [
  | [] ↦ (s, err (replay_unavailable_after_restart cursor))
  | _ ∷ _ ↦ read_enforced cursor (enforce_replay_limits s.limits enforce_at b) s
]

-- Replay after the cleanup.
unfoldable pub replay_checked : ℕ → Cursor → Store → Store × Result ReplayError ReplayResult
replay_checked enforce_at cursor s =
    if not (text_eq cursor.epoch s.epoch)
    then (s, err (replay_unavailable_after_restart cursor))
    else elim (lookup (replay_key (scope_of cursor)) s.replay) [
      | none ↦ (s, err (replay_unavailable_after_restart cursor))
      | some b ↦ replay_found enforce_at cursor b s
    ]

unfoldable pub replay : ℕ → ℕ → Cursor → Store → Store × Result ReplayError ReplayResult
replay cleanup_at enforce_at cursor s = replay_checked enforce_at cursor (cleanup cleanup_at s)
