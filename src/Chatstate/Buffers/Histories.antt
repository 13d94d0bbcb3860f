-- ===== src/Chatstate/Buffers/Histories.antt =====
-- gateway/internal/chatstate/store.go: the buffer of a run against its log, over histories.
use codex_runtime.Base.{
  ℕ, ◌+◌, ◌≤◌, ◌<◌, ◌≡◌, lookup, false, refl, subst, [], ◌∷◌, ◌++◌, List, append-nil, append_assoc,
  length, Text, arith,
}
use codex_runtime.Chatstate.Types.{EventRecord, Cursor, LimitOptions}
use codex_runtime.Chatstate.Store.{Store, cleanup, new_store}
use codex_runtime.Chatstate.Replay.{replay}
use codex_runtime.Chatstate.Steps.Calls.{
  Call, appends_event, replays, step, run, Registers-any_call, touches_replay,
}
use codex_runtime.Chatstate.Steps.Keeps.Histories.{step_other-keeps}
use codex_runtime.Chatstate.Buffers.Eviction.{IsEnd-refl, IsEnd-trans}
use codex_runtime.Chatstate.Buffers.Log.{
  events_at, logged_by, logged, id_limit, Follows, SameEvents, SameEvents-keeps, SameEvents-Follows,
}
use codex_runtime.Chatstate.Buffers.Appends.{
  append_event-Follows, append_event-next, cleanup-SameEvents,
}
use codex_runtime.Chatstate.Buffers.Replays.{replay_checked-IsEnd, replay_checked-next}

SameEvents-refl : (s : Store) → SameEvents s s
SameEvents-refl s = record { replay = refl; next = refl }

replay-Follows :
    (c u : ℕ) (cursor : Cursor) (key : Text) (log : List EventRecord) (s : Store)
    → Follows key log s
    → Follows key log (replay c u cursor s).0
unfolding replay
replay-Follows c u cursor key log s v =
    let w = SameEvents-Follows key log s (cleanup c s) (cleanup-SameEvents c s) v in
    record {
      rising = w.rising;
      below = rw (replay_checked-next u cursor (cleanup c s)) w.below;
      small = rw (replay_checked-next u cursor (cleanup c s)) w.small;
      kept =
          IsEnd-trans log (events_at key (cleanup c s)) _ w.kept
            (replay_checked-IsEnd u cursor key (cleanup c s));
    }

-- A call that does not touch the buffers logs nothing.
other-Follows :
    (key : Text) (log : List EventRecord) (s : Store) (c : Call)
    → touches_replay c ≡ false
    → Follows key log s
    → Follows key log (step s c)
other-Follows key log s c h v =
    SameEvents-Follows key log s (step s c)
      (step_other-keeps (SameEvents-keeps s) s c h (Registers-any_call c) (SameEvents-refl s)) v

-- One call extends the log by the event that it appended to the run, if any.
step-Follows :
    (key : Text) (log : List EventRecord) (s : Store) (c : Call)
    → s.next_event_id + 1 < id_limit
    → Follows key log s
    → Follows key (log ++ logged_by key s c) (step s c)
unfolding step
step-Follows key log s (appends_event c t u input) h v =
    append_event-Follows c t u input key log s h v
step-Follows key log s (replays c u cursor) h v =
    rw append-nil (replay-Follows c u cursor key log s v)
step-Follows key log s c h v = rw append-nil (other-Follows key log s c refl v)

step-next : (s : Store) (c : Call) → (step s c).next_event_id ≤ s.next_event_id + 1
unfolding step
step-next s (appends_event c t u input) = append_event-next c t u input s
step-next s (replays c u cursor) =
    unfold replay cleanup in omega (arith, replay_checked-next u cursor (cleanup c s))
step-next s c = omega (
  arith,
  (step_other-keeps (SameEvents-keeps s) s c refl (Registers-any_call c) (SameEvents-refl s)).next,
)

pub run-Follows :
    (key : Text) (log : List EventRecord) (s : Store) (cs : List Call)
    → s.next_event_id + length cs < id_limit
    → Follows key log s
    → Follows key (log ++ logged key s cs) (run s cs)
unfolding run logged
run-Follows key log s [] h v = rw append-nil v
run-Follows key log s (c ∷ cs) h v =
    subst (λ l. Follows key l (run (step s c) cs))
      (append_assoc log (logged_by key s c) (logged key (step s c) cs))
      (run-Follows key (log ++ logged_by key s c) (step s c) cs (omega (arith, step-next s c))
        (step-Follows key log s c (omega arith) v))

new_store-Follows :
    (fmt : ℕ → Text) (now : ℕ) (epoch : Text) (limits : LimitOptions) (key : Text)
    → Follows key [] (new_store fmt now epoch limits)
unfolding new_store events_at lookup
new_store-Follows fmt now epoch limits key = record {
  rising = tt;
  below = tt;
  small = omega arith;
  kept = IsEnd-refl [];
}

-- After fewer than 2^64 calls of a new store, the buffer of each run is the end of the run's log:
-- a replay buffer loses events from its start only, and ids rise along the log.
pub run-new-Follows :
    (fmt : ℕ → Text) (now : ℕ) (epoch : Text) (limits : LimitOptions) (key : Text) (cs : List Call)
    → length cs < id_limit
    → let s = new_store fmt now epoch limits in Follows key (logged key s cs) (run s cs)
run-new-Follows fmt now epoch limits key cs h =
    run-Follows key [] (new_store fmt now epoch limits) cs (unfold new_store in omega arith)
      (new_store-Follows fmt now epoch limits key)
