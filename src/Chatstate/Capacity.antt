-- ===== src/Chatstate/Capacity.antt =====
-- gateway/internal/chatstate/store.go: the caps on what the store holds.
use codex_runtime.Base.{
  ℕ, ◌≤◌, ◌<◌, ◌≡◌, true, some, List, [], ◌∷◌, ◌++◌, length, length-append, length-insert,
  length-insert_new, length-remove, length-remove_le, length-refine, count_values, count-insert_le,
  count-insert_found, count-refine, drop, Text, arith,
}
use codex_runtime.Chatstate.Types.{PendingRecord, LimitOptions, DiagnosticRecord}
use codex_runtime.Chatstate.Keys.{
  active_run_key, active_run_reservation_key, pending_key, idempotency_key, chat_scope,
}
use codex_runtime.Chatstate.Store.{
  Store, cleanup, cleanup_pending, expire_pending, cleanup_idempotency, active_run_capacity_used,
  active_pending_count, is_open_pending, new_store, normalize_limits,
}
use codex_runtime.Chatstate.Channels.{
  close_subscribers, publish_event, subscribe, unsubscribe, receive,
}
use codex_runtime.Chatstate.Runs.{new_run, known_run, put_run, finish_run}
use codex_runtime.Chatstate.Pending.{put_pending, find_pending, new_pending}
use codex_runtime.Chatstate.Replay.{
  append_checked, store_event, replay_checked, replay_found, read_enforced,
}
use codex_runtime.Chatstate.Idempotency.{
  new_entry, find_entry, record_diagnostic, bounded_diagnostic,
}
use codex_runtime.Chatstate.Steps.Calls.{Call, run, AnyInput, Registers-any}
use codex_runtime.Chatstate.Steps.Keeps.{Keeps, KeepsEvents}
use codex_runtime.Chatstate.Steps.Keeps.Histories.{run-keeps}

-- No collection that a cap bounds is over its cap.
pub record IsCapped (s : Store) : Type 0 where
  pub runs : active_run_capacity_used s ≤ s.limits.active_runs_cap
  pub pending : active_pending_count s ≤ s.limits.pending_cap
  pub idempotency : length s.idempotency ≤ s.limits.idempotency_cap
  pub diagnostics : length s.diagnostics ≤ s.limits.diagnostics_cap
  pub room : 0 < s.limits.diagnostics_cap

-- A cleanup opens no request.
cleanup_pending-open :
    (now ttl : ℕ) (v w : PendingRecord)
    → cleanup_pending now ttl v ≡ some w
    → is_open_pending w ≡ true
    → is_open_pending v ≡ true
unfolding cleanup_pending expire_pending
cleanup_pending-open now ttl v w h g = ground arith

cleanup-pending_count :
    (now : ℕ) (s : Store) → active_pending_count (cleanup now s) ≤ active_pending_count s
unfolding cleanup
cleanup-pending_count now s =
    count-refine is_open_pending (cleanup_pending now s.limits.pending_ttl)
      (cleanup_pending-open now s.limits.pending_ttl) s.pending

cleanup-IsCapped : (now : ℕ) (s : Store) → IsCapped s → IsCapped (cleanup now s)
unfolding cleanup
cleanup-IsCapped now s v = record {
  runs = v.runs;
  pending = omega (arith, cleanup-pending_count now s, v.pending);
  idempotency = omega (
    arith,
    length-refine (cleanup_idempotency now s.limits.replay_ttl) s.idempotency,
    v.idempotency,
  );
  diagnostics = v.diagnostics;
  room = v.room;
}

drop_first :
    {A : Type 0} (x : A) (xs : List A) → 0 < length xs → length (drop 1 xs ++ (x ∷ [])) ≡ length xs
drop_first x [] h = absurd (omega arith)
drop_first x (y ∷ ys) h = omega (arith, length-append ys (x ∷ []))

record_diagnostic-IsCapped :
    (now : ℕ) (r : DiagnosticRecord) (s : Store) → IsCapped s → IsCapped (record_diagnostic now r s)
unfolding record_diagnostic
record_diagnostic-IsCapped now r s v = ground (
  arith,
  drop_first (bounded_diagnostic now r) s.diagnostics,
  length-append s.diagnostics (bounded_diagnostic now r ∷ []),
)

IsCapped-keeps : Keeps AnyInput IsCapped
unfolding put_run known_run finish_run close_subscribers subscribe unsubscribe receive put_pending
    find_pending find_entry
IsCapped-keeps = record {
  cleaned = cleanup-IsCapped;
  run_added = λ now scope key s v p q.
      ground
        (arith, length-insert (active_run_key scope.scope) (new_run now scope key) s.active_runs);
  capacity_reserved = λ scope s v p. ground (
    arith,
    length-insert (active_run_reservation_key scope) (chat_scope scope) s.active_run_reservations,
  );
  capacity_released = λ scope s v.
      ground (arith, length-remove_le (active_run_reservation_key scope) s.active_run_reservations);
  reserved_run_added = λ now reservation scope key s v p q. grind (
    arith,
    length-insert (active_run_key scope.scope) (new_run now scope key) s.active_runs,
    length-remove,
  );
  run_put = λ scope r old s v h. grind (arith, length-insert_new (active_run_key scope.scope) r);
  run_finished = λ now scope state r s v h.
      ground (arith, length-remove_le (active_run_key scope.scope) s.active_runs);
  subscribed = λ scope s v. ground arith;
  unsubscribed = λ scope id s v. ground arith;
  received = λ id s v. ground arith;
  pending_added = λ now ttl input s i v p. ground (
    arith,
    count-insert_le is_open_pending (pending_key input.run_scope input.pending_request_id)
        (new_pending now ttl input) s.pending,
  );
  pending_put = λ scope id r old s v h g. ground (
    arith,
    count-insert_found is_open_pending (pending_key scope id) r old s.pending h (λ e. ground arith),
  );
  entry_added = λ now scope s v h p.
      ground (arith, length-insert (idempotency_key scope) (new_entry now scope) s.idempotency);
  entry_put =
      λ scope entry old s v h. grind (arith, length-insert_new (idempotency_key scope) entry);
  entry_removed =
      λ scope s v. ground (arith, length-remove_le (idempotency_key scope) s.idempotency);
  diagnostic_recorded = record_diagnostic-IsCapped;
}

IsCapped-keeps_events : KeepsEvents IsCapped
unfolding append_checked store_event publish_event replay_checked replay_found read_enforced
IsCapped-keeps_events = record {
  event_appended = λ created_at enforce_at input size s v. ground arith;
  replayed = λ enforce_at cursor s v. ground arith;
}

-- A new store holds nothing, and its caps are positive.
new_store-IsCapped :
    (fmt : ℕ → Text) (now : ℕ) (epoch : Text) (limits : LimitOptions)
    → IsCapped (new_store fmt now epoch limits)
unfolding new_store normalize_limits count_values
new_store-IsCapped fmt now epoch limits = ground arith

-- Whatever the limits asked for, and whatever calls are made of a new store, in any order and with
-- any readings of the clock, the runs and reservations, the open pending requests, the idempotency
-- entries and the diagnostics each stay within their cap.
pub run-IsCapped :
    (fmt : ℕ → Text) (now : ℕ) (epoch : Text) (limits : LimitOptions) (cs : List Call)
    → IsCapped (run (new_store fmt now epoch limits) cs)
run-IsCapped fmt now epoch limits cs =
    run-keeps IsCapped-keeps IsCapped-keeps_events (new_store fmt now epoch limits) cs
      (Registers-any cs) (new_store-IsCapped fmt now epoch limits)
