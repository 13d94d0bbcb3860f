-- ===== src/Chatstate/Buffers/Complete.antt =====
-- gateway/internal/chatstate/store.go: what `Replay` returns, against the log of its run.
use codex_runtime.Base.{
  ℕ, ◌+◌, ◌≤◌, ◌<◌, ◌≡◌, refl, subst, sym, ap, ◌∙◌, true, false, List, [], ◌∷◌, ◌++◌, All, keep_if,
  keep_if-append, keep_if-none, length, Text, Result, ok, err, ltb, arith, lookup, some, ◌⊎◌, inl,
  inr,
}
use codex_runtime.Chatstate.Types.{EventRecord, Cursor, LimitOptions, ReplayResult, ReplayError}
use codex_runtime.Chatstate.Keys.{replay_key}
use codex_runtime.Chatstate.Store.{Store, ReplayBuffer, cleanup, new_store}
use codex_runtime.Chatstate.Replay.{
  read_buffer, read_enforced, enforce_replay_limits, replay_checked, replay, newer, scope_of,
}
use codex_runtime.Chatstate.Steps.Calls.{Call, run}
use codex_runtime.Chatstate.Buffers.Eviction.{IsEnd, IsEnd-trans, enforce_replay_limits-IsEnd}
use codex_runtime.Chatstate.Buffers.Log.{
  logged, Rising, Below, id_limit, Follows, SameEvents-Follows,
}
use codex_runtime.Chatstate.Buffers.Appends.{cleanup-SameEvents}
use codex_runtime.Chatstate.Buffers.Replays.{
  replay_found_cases, replay_checked_cases, events_at-found,
}
use codex_runtime.Chatstate.Buffers.Histories.{run-new-Follows}

-- Events that stand before another in a rising log have smaller ids.
pub Rising-lower :
    (lo : ℕ) (gone : List EventRecord) (e : EventRecord) (es : List EventRecord)
    → Rising lo (gone ++ (e ∷ es))
    → lo < e.event_id
Rising-lower lo [] e es r = r.0
Rising-lower lo (x ∷ gone) e es r = omega (arith, r.0, Rising-lower x.event_id gone e es r.1)

Rising-gone :
    (lo after : ℕ) (gone : List EventRecord) (e : EventRecord) (es : List EventRecord)
    → Rising lo (gone ++ (e ∷ es))
    → e.event_id ≤ after + 1
    → All (λ x. ltb after x.event_id ≡ false) gone
Rising-gone lo after [] e es r h = tt
Rising-gone lo after (x ∷ gone) e es r h = (
  ground (arith, Rising-lower x.event_id gone e es r.1),
  Rising-gone x.event_id after gone e es r.1 h,
)

pub Below-found :
    (n : ℕ) (gone : List EventRecord) (e : EventRecord) (es : List EventRecord)
    → Below n (gone ++ (e ∷ es))
    → e.event_id ≤ n
Below-found n [] e es b = b.0
Below-found n (x ∷ gone) e es b = Below-found n gone e es b.1

-- Events that the cursor has passed do not count.
newer-end :
    (lo after : ℕ) (gone : List EventRecord) (e : EventRecord) (es : List EventRecord)
    → Rising lo (gone ++ (e ∷ es))
    → e.event_id ≤ after + 1
    → newer after (e ∷ es) ≡ newer after (gone ++ (e ∷ es))
unfolding newer
newer-end lo after gone e es r h = sym (
    keep_if-append (λ x. ltb after x.event_id) gone (e ∷ es)
    ∙ ap (λ l. l ++ keep_if (λ x. ltb after x.event_id) (e ∷ es))
        (keep_if-none (λ x. ltb after x.event_id) gone (Rising-gone lo after gone e es r h)))

-- What a replay may say from the log of its run: with a cursor that is not 0, or where the buffer
-- is said to reach back to the start, exactly the log's events after the cursor.
abbrev pub Complete : Cursor → List EventRecord → Result ReplayError ReplayResult → Type 0
Complete cursor log (err _) = Unit
Complete cursor log (ok r) =
    (cursor.after_event_id ≡ 0 → r.from_start_available ≡ true)
    → r.events ≡ newer cursor.after_event_id log

read_buffer-Complete :
    (cursor : Cursor) (gone : List EventRecord) (e : EventRecord) (es : List EventRecord)
    (start : ℕ)
    → Rising 0 (gone ++ (e ∷ es))
    → e.event_id < id_limit
    → Complete cursor (gone ++ (e ∷ es)) (read_buffer cursor e es start)
unfolding read_buffer
read_buffer-Complete cursor gone e es start r h =
    ground (arith, Rising-lower 0 gone e es r, newer-end 0 cursor.after_event_id gone e es r)

pub List-cases : {A : Type 0} (xs : List A) → (xs ≡ []) ⊎ ((x : A) × (ys : List A) × (xs ≡ x ∷ ys))
List-cases [] = inl refl
List-cases (x ∷ ys) = inr (x, ys, refl)

module _ (key : Text) (log : List EventRecord) (s : Store) (v : Follows key log s) where
  read_enforced-Complete :
      (cursor : Cursor) (b : ReplayBuffer)
      → IsEnd log b.events
      → Complete cursor log (read_enforced cursor b s).1
  unfolding read_enforced
  read_enforced-Complete cursor b (gone, p) = elim (List-cases b.events) [
    | inl e ↦ rw (e, read_enforced) tt
    | inr (x, ys, e) ↦
        let q : log ≡ gone ++ (x ∷ ys) = p ∙ ap (λ l. gone ++ l) e in
        rw (e, read_enforced)
          (subst (λ l. Complete cursor l (read_buffer cursor x ys b.start_evicted_before_event_id))
            (sym q)
            (read_buffer-Complete cursor gone x ys b.start_evicted_before_event_id
              (subst (Rising 0) q v.rising)
              (omega (
                arith,
                v.small,
                Below-found s.next_event_id gone x ys (subst (Below s.next_event_id) q v.below),
              ))))
  ]

  replay_checked-Complete :
      (now : ℕ) (cursor : Cursor)
      → replay_key (scope_of cursor) ≡ key
      → Complete cursor log (replay_checked now cursor s).1
  replay_checked-Complete now cursor k =
      replay_checked_cases (λ r. Complete cursor log r.1) now cursor s tt
        (λ b h.
          replay_found_cases (λ r. Complete cursor log r.1) now cursor b s tt
            (read_enforced-Complete cursor (enforce_replay_limits s.limits now b) (
              IsEnd-trans log b.events (enforce_replay_limits s.limits now b).events
                (subst (IsEnd log)
                  (events_at-found key b s (subst (λ j. lookup j s.replay ≡ some b) k h)) v.kept)
                (enforce_replay_limits-IsEnd s.limits now b))))

pub replay-Complete :
    (c u : ℕ) (cursor : Cursor) (log : List EventRecord) (s : Store)
    → Follows (replay_key (scope_of cursor)) log s
    → Complete cursor log (replay c u cursor s).1
unfolding replay
replay-Complete c u cursor log s v =
    replay_checked-Complete (replay_key (scope_of cursor)) log (cleanup c s)
      (SameEvents-Follows (replay_key (scope_of cursor)) log s (cleanup c s)
        (cleanup-SameEvents c s) v)
      u cursor refl

-- After fewer than 2^64 calls of a new store, in any order, a replay that succeeds returns exactly
-- the events appended under its run's replay key whose ids are above the cursor, in the order in
-- which they were appended: none is lost, repeated or taken from another key. The cursor is not 0,
-- or else the result says that the buffer reaches back to the start.
pub replay_complete :
    (fmt : ℕ → Text) (now : ℕ) (epoch : Text) (limits : LimitOptions) (cs : List Call) (c u : ℕ)
    (cursor : Cursor) (r : ReplayResult)
    → length cs < id_limit
    → (replay c u cursor (run (new_store fmt now epoch limits) cs)).1 ≡ ok r
    → (cursor.after_event_id ≡ 0 → r.from_start_available ≡ true)
    → r.events
      ≡ newer cursor.after_event_id
          (logged (replay_key (scope_of cursor)) (new_store fmt now epoch limits) cs)
replay_complete fmt now epoch limits cs c u cursor r h e =
    let s = new_store fmt now epoch limits in
    subst (Complete cursor (logged (replay_key (scope_of cursor)) s cs)) e (
      replay-Complete c u cursor (logged (replay_key (scope_of cursor)) s cs) (run s cs)
        (run-new-Follows fmt now epoch limits (replay_key (scope_of cursor)) cs h))
