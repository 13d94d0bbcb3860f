-- ===== src/Chatstate/Buffers/Resuming.antt =====
-- gateway/internal/chatstate/store.go: `Replay` from an event that is still buffered.
use codex_runtime.Base.{
  ℕ, ◌<◌, ◌≤◌, ◌≡◌, sym, subst, ap, ◌∙◌, text_eq_iff, some, List, [], ◌∷◌, ◌++◌, Holds, inl, inr,
  length, lookup, ok, Text, arith, Result-cases,
}
use codex_runtime.Chatstate.Types.{EventRecord, Cursor, ReplayResult, LimitOptions}
use codex_runtime.Chatstate.Keys.{replay_key}
use codex_runtime.Chatstate.Store.{Store, ReplayBuffer, cleanup, new_store}
use codex_runtime.Chatstate.Replay.{
  enforce_from, enforce_replay_limits, last_id, scope_of, read_buffer, read_enforced, replay_found,
  replay_checked, replay, newer,
}
use codex_runtime.Chatstate.Steps.Calls.{Call, run}
use codex_runtime.Chatstate.Buffers.Eviction.{IsEnd, IsEnd-trans, enforce_replay_limits-IsEnd}
use codex_runtime.Chatstate.Buffers.Log.{logged, Rising, Below, id_limit, Follows}
use codex_runtime.Chatstate.Buffers.Replays.{events_at-found}
use codex_runtime.Chatstate.Buffers.Histories.{run-new-Follows}
use codex_runtime.Chatstate.Buffers.Complete.{
  Rising-lower, Below-found, List-cases, Complete, replay-Complete,
}

-- The buffer that the cursor's run has, from its oldest event, once the limits are enforced.
record Buffered (now : ℕ) (cursor : Cursor) (s : Store) (b : ReplayBuffer) (oldest : EventRecord)
    (rest : List EventRecord) : Type 0 where
  same_epoch : cursor.epoch ≡ s.epoch
  found : lookup (replay_key (scope_of cursor)) s.replay ≡ some b
  enforced : (enforce_replay_limits s.limits now b).events ≡ oldest ∷ rest
  small : oldest.event_id < id_limit
  positive : 0 < oldest.event_id

replay_checked-found :
    (u : ℕ) (cursor : Cursor) (s : Store) (b : ReplayBuffer)
    → cursor.epoch ≡ s.epoch
    → lookup (replay_key (scope_of cursor)) s.replay ≡ some b
    → replay_checked u cursor s ≡ replay_found u cursor b s
unfolding replay_checked
replay_checked-found u cursor s b p h = ground (arith, text_eq_iff cursor.epoch s.epoch)

replay_found-read :
    (u : ℕ) (cursor : Cursor) (s : Store) (b : ReplayBuffer) (e : EventRecord)
    (es : List EventRecord)
    → (enforce_replay_limits s.limits u b).events ≡ e ∷ es
    → (replay_found u cursor b s).1
      ≡ read_buffer cursor e es (enforce_replay_limits s.limits u b).start_evicted_before_event_id
unfolding replay_found read_enforced enforce_replay_limits enforce_from
replay_found-read u cursor s b e es h = ground arith

replay-read :
    (c u : ℕ) (cursor : Cursor) (s : Store) (b : ReplayBuffer) (e : EventRecord)
    (es : List EventRecord)
    → Buffered u cursor s b e es
    → (replay c u cursor s).1
      ≡ read_buffer cursor e es (enforce_replay_limits s.limits u b).start_evicted_before_event_id
unfolding replay cleanup
replay-read c u cursor s b e es v = ground (
  arith,
  replay_checked-found u cursor (cleanup c s) b v.same_epoch v.found,
  replay_found-read u cursor (cleanup c s) b e es v.enforced,
)

-- The end of a rising log rises.
Rising-end :
    (lo : ℕ) (gone : List EventRecord) (e : EventRecord) (es : List EventRecord)
    → Rising lo (gone ++ (e ∷ es))
    → Rising e.event_id es
Rising-end lo [] e es r = r.1
Rising-end lo (x ∷ gone) e es r = Rising-end x.event_id gone e es r.1

Rising-held :
    (lo : ℕ) (e : EventRecord) (es : List EventRecord) → Rising lo es → Holds e es → lo < e.event_id
Rising-held lo e [] r h = elim h [ ]
Rising-held lo e (x ∷ es) r (inl p) = subst (λ y. lo < y.event_id) (sym p) r.0
Rising-held lo e (x ∷ es) r (inr h) = omega (arith, r.0, Rising-held x.event_id e es r.1 h)

first-held :
    (e x : EventRecord) (es : List EventRecord)
    → Rising x.event_id es
    → Holds e (x ∷ es)
    → x.event_id ≤ e.event_id
first-held e x es r (inl p) = subst (λ y. x.event_id ≤ y.event_id) (sym p) (omega arith)
first-held e x es r (inr h) = omega (arith, Rising-held x.event_id e es r h)

last_id-above :
    (x : EventRecord) (es : List EventRecord) → Rising x.event_id es → x.event_id ≤ last_id x es
last_id-above x [] r = omega arith
last_id-above x (y ∷ es) r = omega (arith, r.0, last_id-above y es r.1)

last_id-held :
    (e x : EventRecord) (es : List EventRecord)
    → Rising x.event_id es
    → Holds e (x ∷ es)
    → e.event_id ≤ last_id x es
last_id-held e x es r (inl p) =
    subst (λ y. y.event_id ≤ last_id x es) (sym p) (last_id-above x es r)
last_id-held e x [] r (inr h) = elim h [ ]
last_id-held e x (y ∷ es) r (inr h) = last_id-held e y es r.1 h

-- A cursor between the oldest and the newest event is served.
read_buffer-served :
    (cursor : Cursor) (x : EventRecord) (es : List EventRecord) (start : ℕ)
    → x.event_id < id_limit
    → 0 < x.event_id
    → x.event_id ≤ cursor.after_event_id
    → cursor.after_event_id ≤ last_id x es
    → (r : ReplayResult) × (read_buffer cursor x es start ≡ ok r)
unfolding read_buffer
read_buffer-served cursor x es start small positive above below =
    elim (Result-cases (read_buffer cursor x es start)) [
      | inr (r, p) ↦ (r, p)
      | inl (e, p) ↦ absurd (ground (arith, p, small, positive, above, below))
    ]

-- A replay whose cursor is an event of the buffer.
replay-resumed :
    (c u : ℕ) (cursor : Cursor) (log : List EventRecord) (s : Store) (b : ReplayBuffer)
    (e : EventRecord)
    → Follows (replay_key (scope_of cursor)) log s
    → cursor.epoch ≡ s.epoch
    → lookup (replay_key (scope_of cursor)) s.replay ≡ some b
    → Holds e (enforce_replay_limits s.limits u b).events
    → cursor.after_event_id ≡ e.event_id
    → (r : ReplayResult) × ((replay c u cursor s).1 ≡ ok r) × (0 < cursor.after_event_id)
replay-resumed c u cursor log s b e v same found here at =
    let kept = (enforce_replay_limits s.limits u b).events in
    let (gone, p) =
      IsEnd-trans log b.events kept
        (subst (IsEnd log) (events_at-found (replay_key (scope_of cursor)) b s found) v.kept)
        (enforce_replay_limits-IsEnd s.limits u b) in
    elim (List-cases kept) [
      | inl q ↦ elim (subst (Holds e) q here) [ ]
      | inr (x, es, q) ↦
          let whole : log ≡ gone ++ (x ∷ es) = p ∙ ap (λ l. gone ++ l) q in
          let rising = subst (Rising 0) whole v.rising in
          let positive = Rising-lower 0 gone x es rising in
          let rest = Rising-end 0 gone x es rising in
          let held = subst (Holds e) q here in
          let small : x.event_id < id_limit = omega (
            arith,
            v.small,
            Below-found s.next_event_id gone x es (subst (Below s.next_event_id) whole v.below),
          ) in
          let (r, served) =
            read_buffer-served cursor x es
              (enforce_replay_limits s.limits u b).start_evicted_before_event_id small positive
              (omega (arith, at, first-held e x es rest held))
              (omega (arith, at, last_id-held e x es rest held)) in
          (
            r,
            replay-read c u cursor s b x es (record {
              same_epoch = same;
              found = found;
              enforced = q;
              small = small;
              positive = positive;
            })
                ∙ served,
            omega (arith, at, positive, first-held e x es rest held),
          )
    ]

-- After fewer than 2^64 calls of a new store, in any order: a replay in the store's epoch whose cursor
-- is an event that its run's buffer still holds once the limits are enforced is never refused, and
-- returns exactly the events that were appended under the run's key with higher ids, in the order in
-- which they were appended.
pub replay_resumes :
    (fmt : ℕ → Text) (now : ℕ) (epoch : Text) (limits : LimitOptions) (cs : List Call) (c u : ℕ)
    (cursor : Cursor) (b : ReplayBuffer) (e : EventRecord)
    → length cs < id_limit
    → cursor.epoch ≡ (run (new_store fmt now epoch limits) cs).epoch
    → lookup (replay_key (scope_of cursor)) (run (new_store fmt now epoch limits) cs).replay
      ≡ some b
    → Holds e (enforce_replay_limits (run (new_store fmt now epoch limits) cs).limits u b).events
    → cursor.after_event_id ≡ e.event_id
    → (r : ReplayResult) × ((replay c u cursor (run (new_store fmt now epoch limits) cs)).1 ≡ ok r)
      × (r.events
          ≡ newer e.event_id
              (logged (replay_key (scope_of cursor)) (new_store fmt now epoch limits) cs))
replay_resumes fmt now epoch limits cs c u cursor b e few same found here at =
    let s = run (new_store fmt now epoch limits) cs in
    let log = logged (replay_key (scope_of cursor)) (new_store fmt now epoch limits) cs in
    let v = run-new-Follows fmt now epoch limits (replay_key (scope_of cursor)) cs few in
    let (r, served, positive) = replay-resumed c u cursor log s b e v same found here at in
    (
      r,
      served,
      subst (Complete cursor log) served (replay-Complete c u cursor log s v)
            (λ z. absurd (omega (arith, z, positive)))
          ∙ ap (λ n. newer n log) at,
    )
