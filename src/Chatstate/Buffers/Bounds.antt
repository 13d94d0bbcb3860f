-- ===== src/Chatstate/Buffers/Bounds.antt =====
-- gateway/internal/chatstate/store.go: the limits of the replay buffers.
use codex_runtime.Base.{
  ℕ, ◌+◌, ◌≤◌, ◌<◌, ◌≡◌, refl, some, List, [], ◌∷◌, All, lookup, lookup-insert, lookup-remove, Text,
  ℤ, pos, negsuc, arith, Option-cases, inl, inr,
}
use codex_runtime.Chatstate.Types.{EventRecord, EventInput, Cursor, LimitOptions}
use codex_runtime.Chatstate.Keys.{replay_key, validate_run_scope}
use codex_runtime.Chatstate.Store.{Store, ReplayBuffer, cleanup, new_store, normalize_limits}
use codex_runtime.Chatstate.Channels.{
  close_subscribers, publish_event, subscribe, unsubscribe, receive,
}
use codex_runtime.Chatstate.Runs.{put_run, finish_run}
use codex_runtime.Chatstate.Pending.{put_pending}
use codex_runtime.Chatstate.Replay.{
  append_event, append_sized, append_checked, new_event, store_event, add_event, buffer_or_new,
  enforce_replay_limits, replay, replay_checked, replay_found, read_enforced, scope_of,
}
use codex_runtime.Chatstate.Idempotency.{record_diagnostic}
use codex_runtime.Chatstate.Steps.Calls.{
  Call, appends_event, replays, step, run, AnyInput, Registers-any_call,
}
use codex_runtime.Chatstate.Steps.Keeps.{Keeps}
use codex_runtime.Chatstate.Steps.Keeps.Histories.{step_other-keeps}
use codex_runtime.Chatstate.Buffers.Eviction.{
  IsBounded, total, total-append, int64_limit, enforce_replay_limits-IsBounded,
}
use codex_runtime.Chatstate.Buffers.Replays.{replay_found_cases, replay_checked_cases}

-- What an append counts, which refuses a negative size.
abbrev size_of : ℤ → ℕ
size_of (pos n) = n
size_of (negsuc n) = 0

-- The buffers, with a limit on bytes that leaves room for an event in an int64.
pub record HasBounds (room : ℕ) (s : Store) : Type 0 where
  pub roomy : s.limits.replay_max_bytes + room < int64_limit
  pub at_key : (key : Text) (b : ReplayBuffer) → lookup key s.replay ≡ some b → IsBounded s.limits b

HasBounds-keeps : {room : ℕ} → Keeps AnyInput (HasBounds room)
unfolding cleanup put_run finish_run close_subscribers subscribe unsubscribe receive put_pending
    record_diagnostic
HasBounds-keeps = record {
  cleaned = λ now s v. record { roomy = v.roomy; at_key = v.at_key };
  run_added = λ now scope key s v p q. record { roomy = v.roomy; at_key = v.at_key };
  capacity_reserved = λ scope s v p. record { roomy = v.roomy; at_key = v.at_key };
  capacity_released = λ scope s v. record { roomy = v.roomy; at_key = v.at_key };
  reserved_run_added =
      λ now reservation scope key s v p q. record { roomy = v.roomy; at_key = v.at_key };
  run_put = λ scope r old s v h. record { roomy = v.roomy; at_key = v.at_key };
  run_finished = λ now scope state r s v h. record { roomy = v.roomy; at_key = v.at_key };
  subscribed = λ scope s v. record {
    roomy = ground (arith, v.roomy);
    at_key = λ key b h. ground (arith, v.at_key key b);
  };
  unsubscribed = λ scope id s v. record {
    roomy = ground (arith, v.roomy);
    at_key = λ key b h. ground (arith, v.at_key key b);
  };
  received = λ id s v. record { roomy = v.roomy; at_key = v.at_key };
  pending_added = λ now ttl input s i v p. record { roomy = v.roomy; at_key = v.at_key };
  pending_put = λ scope id r old s v h g. record { roomy = v.roomy; at_key = v.at_key };
  entry_added = λ now scope s v h p. record { roomy = v.roomy; at_key = v.at_key };
  entry_put = λ scope entry old s v h. record { roomy = v.roomy; at_key = v.at_key };
  entry_removed = λ scope s v. record { roomy = v.roomy; at_key = v.at_key };
  diagnostic_recorded = λ now r s v. record { roomy = v.roomy; at_key = v.at_key };
}

cleanup-HasBounds :
    {room : ℕ} (now : ℕ) (s : Store) → HasBounds room s → HasBounds room (cleanup now s)
cleanup-HasBounds now s v = HasBounds-keeps.cleaned now s v

-- The byte count of a run's buffer is exact and within the limit, also where there is no buffer yet.
buffer_or_new-IsBounded :
    {room : ℕ} (key : Text) (s : Store)
    → HasBounds room s
    → IsBounded s.limits (buffer_or_new (lookup key s.replay))
buffer_or_new-IsBounded key s v = elim (Option-cases (lookup key s.replay)) [
  | inl e ↦ rw e (record { count = omega arith; bytes = omega arith; exact = refl })
  | inr (b, e) ↦ rw e (v.at_key key b e)
]

add_event-exact :
    (e : EventRecord) (b : ReplayBuffer)
    → b.bytes ≡ total b.events
    → b.bytes + e.size_bytes < int64_limit
    → ((add_event e b).bytes ≡ total (add_event e b).events)
      × (total (add_event e b).events < int64_limit)
unfolding add_event
add_event-exact e b h small =
    let sum = total-append b.events (e ∷ []) in
    (omega (arith, h, small, sum), omega (arith, h, small, sum))

-- The buffer of the run of an event that is no larger than the room.
stored-IsBounded :
    {room : ℕ} (now : ℕ) (e : EventRecord) (s : Store)
    → HasBounds room s
    → e.size_bytes ≤ room
    → IsBounded s.limits (
        enforce_replay_limits s.limits now
          (add_event e (buffer_or_new (lookup (replay_key e.run_scope) s.replay))))
stored-IsBounded now e s v fits =
    let b = buffer_or_new (lookup (replay_key e.run_scope) s.replay) in
    let w = buffer_or_new-IsBounded (replay_key e.run_scope) s v in
    let (exact, small) = add_event-exact e b w.exact (omega (arith, w.bytes, v.roomy, fits)) in
    enforce_replay_limits-IsBounded s.limits now (add_event e b) exact small

store_event-HasBounds :
    {room : ℕ} (now : ℕ) (e : EventRecord) (s : Store)
    → HasBounds room s
    → e.size_bytes ≤ room
    → HasBounds room (store_event now e s)
unfolding store_event
store_event-HasBounds now e s v fits = record {
  roomy = v.roomy;
  at_key = λ key b h. ground (
    arith,
    lookup-insert (replay_key e.run_scope) key
        (enforce_replay_limits s.limits now
          (add_event e (buffer_or_new (lookup (replay_key e.run_scope) s.replay))))
        s.replay,
    v.at_key key b,
    stored-IsBounded now e s v fits,
  );
}

publish_event-HasBounds :
    {room : ℕ} (key : Text) (e : EventRecord) (s : Store)
    → HasBounds room s
    → HasBounds room (publish_event key e s)
unfolding publish_event
publish_event-HasBounds key e s v = record { roomy = v.roomy; at_key = v.at_key }

read_enforced-HasBounds :
    {room : ℕ} (cursor : Cursor) (b : ReplayBuffer) (s : Store)
    → HasBounds room s
    → IsBounded s.limits b
    → HasBounds room (read_enforced cursor b s).0
unfolding read_enforced
read_enforced-HasBounds cursor b s v w = record {
  roomy = ground (arith, v.roomy);
  at_key = λ key c h. ground (
    arith,
    lookup-insert (replay_key (scope_of cursor)) key b s.replay,
    lookup-remove (replay_key (scope_of cursor)) key s.replay,
    v.at_key key c,
  );
}

replay_found-HasBounds :
    {room : ℕ} (now : ℕ) (cursor : Cursor) (b : ReplayBuffer) (s : Store)
    → HasBounds room s
    → IsBounded s.limits b
    → HasBounds room (replay_found now cursor b s).0
replay_found-HasBounds {room} now cursor b s v w =
    replay_found_cases (λ r. HasBounds room r.0) now cursor b s v
      (read_enforced-HasBounds cursor (enforce_replay_limits s.limits now b) s v (
        enforce_replay_limits-IsBounded s.limits now b w.exact
          (omega (arith, w.bytes, w.exact, v.roomy))))

replay_checked-HasBounds :
    {room : ℕ} (now : ℕ) (cursor : Cursor) (s : Store)
    → HasBounds room s
    → HasBounds room (replay_checked now cursor s).0
replay_checked-HasBounds {room} now cursor s v =
    replay_checked_cases (λ r. HasBounds room r.0) now cursor s v
      (λ b h. replay_found-HasBounds now cursor b s v (v.at_key _ b h))

-- The sizes of the events that a call appends.
abbrev pub IsSized : ℕ → Call → Type 0
IsSized room (appends_event c t u input) = size_of input.size_bytes ≤ room
IsSized room _ = Unit

append_checked-HasBounds :
    {room : ℕ} (t u : ℕ) (input : EventInput) (size : ℕ) (s : Store)
    → size ≤ room
    → HasBounds room s
    → HasBounds room (append_checked t u input size s).0
unfolding append_checked
append_checked-HasBounds t u input size s fits v =
    publish_event-HasBounds (replay_key input.run_scope) _ _
      (unfold new_event in store_event-HasBounds u _ s v fits)

append_sized-HasBounds :
    {room : ℕ} (c t u : ℕ) (input : EventInput) (size : ℤ) (s : Store)
    → size_of size ≤ room
    → HasBounds room s
    → HasBounds room (append_sized c t u input size s).0
append_sized-HasBounds c t u input (pos n) s fits v =
    append_checked-HasBounds t u input n (cleanup c s) fits (cleanup-HasBounds c s v)
append_sized-HasBounds c t u input (negsuc n) s fits v = v

append_event-HasBounds :
    {room : ℕ} (c t u : ℕ) (input : EventInput) (s : Store)
    → size_of input.size_bytes ≤ room
    → HasBounds room s
    → HasBounds room (append_event c t u input s).0
unfolding append_event
append_event-HasBounds c t u input s fits v =
    elim (Option-cases (validate_run_scope input.run_scope)) [
      | inl p ↦ rw (p, append_event) (append_sized-HasBounds c t u input input.size_bytes s fits v)
      | inr (e, p) ↦ rw (p, append_event) v
    ]

step-HasBounds :
    {room : ℕ} (s : Store) (c : Call)
    → IsSized room c
    → HasBounds room s
    → HasBounds room (step s c)
unfolding step replay
step-HasBounds s (appends_event c t u input) fits v = append_event-HasBounds c t u input s fits v
step-HasBounds s (replays c u cursor) fits v =
    replay_checked-HasBounds u cursor (cleanup c s) (cleanup-HasBounds c s v)
step-HasBounds s c fits v = step_other-keeps HasBounds-keeps s c refl (Registers-any_call c) v

run-HasBounds_from :
    {room : ℕ} (s : Store) (cs : List Call)
    → All (IsSized room) cs
    → HasBounds room s
    → HasBounds room (run s cs)
unfolding run
run-HasBounds_from s [] fits v = v
run-HasBounds_from s (c ∷ cs) fits v =
    run-HasBounds_from (step s c) cs fits.1 (step-HasBounds s c fits.0 v)

-- After any calls of a new store that append events of at most so many bytes that the limit on bytes
-- and one event more fit an int64, each run's replay buffer has at most the configured number of
-- events and of bytes, and its byte count, which wraps, is the sum of its events' sizes.
pub run-HasBounds :
    (fmt : ℕ → Text) (now : ℕ) (epoch : Text) (limits : LimitOptions) (room : ℕ) (cs : List Call)
    → (normalize_limits limits).replay_max_bytes + room < int64_limit
    → All (IsSized room) cs
    → HasBounds room (run (new_store fmt now epoch limits) cs)
unfolding new_store lookup
run-HasBounds fmt now epoch limits room cs small fits =
    run-HasBounds_from (new_store fmt now epoch limits) cs fits
      (record { roomy = small; at_key = λ key b h. cc })
