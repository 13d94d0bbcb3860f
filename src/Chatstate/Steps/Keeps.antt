-- ===== src/Chatstate/Steps/Keeps.antt =====
-- gateway/internal/chatstate/store.go: the changes that the store's operations are made of, and
-- predicates that each change keeps.
pub mod Runs
pub mod Pending
pub mod Histories
use codex_runtime.Base.{
  ℕ, ◌+◌, ◌<◌, Text, ◌≡◌, ◌⊎◌, true, false, Option, none, some, lookup, insert, remove, length,
  is_some,
}
use codex_runtime.Chatstate.Types.{
  RunScope, RunState, RunRecord, EventInput, Cursor, PendingInput, PendingRecord, IdempotencyScope,
  IdempotencyEntry, DiagnosticRecord,
}
use codex_runtime.Chatstate.Keys.{
  active_run_key, active_run_reservation_key, idempotency_key, chat_scope, is_open,
}
use codex_runtime.Chatstate.Store.{Store, cleanup, active_run_capacity_used, active_pending_count}
use codex_runtime.Chatstate.Channels.{subscribe, unsubscribe, receive}
use codex_runtime.Chatstate.Runs.{in_progress, new_run, known_run, put_run, finish_run}
use codex_runtime.Chatstate.Pending.{put_pending, find_pending, new_pending}
use codex_runtime.Chatstate.Replay.{append_checked, replay_checked}
use codex_runtime.Chatstate.Idempotency.{new_entry, find_entry, record_diagnostic}

-- Pending requests are registered from inputs of `Input` alone.
pub record Keeps (Input : PendingInput → Type 0) (P : Store → Type 0) : Type 0 where
  pub cleaned : (now : ℕ) (s : Store) → P s → P (cleanup now s)
  pub run_added :
      (now : ℕ) (scope : RunScope) (key : Text) (s : Store)
      → P s
      → in_progress (lookup (active_run_key scope.scope) s.active_runs) ≡ false
      → active_run_capacity_used s < s.limits.active_runs_cap
      → P (record s {
        active_runs = insert (active_run_key scope.scope) (new_run now scope key) s.active_runs;
      })
  pub capacity_reserved :
      (scope : IdempotencyScope) (s : Store)
      → P s
      → active_run_capacity_used s < s.limits.active_runs_cap
      → P (record s {
        active_run_reservations =
            insert (active_run_reservation_key scope) (chat_scope scope) s.active_run_reservations;
      })
  pub capacity_released :
      (scope : IdempotencyScope) (s : Store)
      → P s
      → P (record s {
        active_run_reservations =
            remove (active_run_reservation_key scope) s.active_run_reservations;
      })
  pub reserved_run_added :
      (now : ℕ) (reservation : IdempotencyScope) (scope : RunScope) (key : Text) (s : Store)
      → P s
      → is_some (lookup (active_run_reservation_key reservation) s.active_run_reservations) ≡ true
      → in_progress (lookup (active_run_key scope.scope) s.active_runs) ≡ false
      → P (record s {
        active_runs = insert (active_run_key scope.scope) (new_run now scope key) s.active_runs;
        active_run_reservations =
            remove (active_run_reservation_key reservation) s.active_run_reservations;
      })
  pub run_put :
      (scope : RunScope) (r old : RunRecord) (s : Store)
      → P s
      → known_run scope s ≡ some old
      → P (put_run scope r s).0
  pub run_finished :
      (now : ℕ) (scope : RunScope) (state : RunState) (r : RunRecord) (s : Store)
      → P s
      → known_run scope s ≡ some r
      → P (finish_run now scope state r s).0
  pub subscribed : (scope : RunScope) (s : Store) → P s → P (subscribe scope s).0
  pub unsubscribed : (scope : RunScope) (id : ℕ) (s : Store) → P s → P (unsubscribe scope id s)
  pub received : (id : ℕ) (s : Store) → P s → P (receive id s).0
  pub pending_added :
      (now ttl : ℕ) (input : PendingInput) (s : Store)
      → Input input
      → P s
      → active_pending_count s < s.limits.pending_cap
      → P (put_pending input.run_scope input.pending_request_id (new_pending now ttl input) s)
  pub pending_put :
      (scope : RunScope) (id : Text) (r old : PendingRecord) (s : Store)
      → P s
      → find_pending scope id s ≡ some old
      → (is_open r.status ≡ false) ⊎ (is_open old.status ≡ true)
      → P (put_pending scope id r s)
  pub entry_added :
      (now : ℕ) (scope : IdempotencyScope) (s : Store)
      → P s
      → lookup (idempotency_key scope) s.idempotency ≡ none
      → length s.idempotency < s.limits.idempotency_cap
      → P (record s {
        idempotency = insert (idempotency_key scope) (new_entry now scope) s.idempotency;
      })
  pub entry_put :
      (scope : IdempotencyScope) (entry old : IdempotencyEntry) (s : Store)
      → P s
      → find_entry scope s ≡ some old
      → P (record s { idempotency = insert (idempotency_key scope) entry s.idempotency })
  pub entry_removed :
      (scope : IdempotencyScope) (s : Store)
      → P s
      → P (record s { idempotency = remove (idempotency_key scope) s.idempotency })
  pub diagnostic_recorded :
      (now : ℕ) (r : DiagnosticRecord) (s : Store) → P s → P (record_diagnostic now r s)

-- The two changes of the replay buffers.
pub record KeepsEvents (P : Store → Type 0) : Type 0 where
  pub event_appended :
      (created_at enforce_at : ℕ) (input : EventInput) (size : ℕ) (s : Store)
      → P s
      → P (append_checked created_at enforce_at input size s).0
  pub replayed :
      (enforce_at : ℕ) (cursor : Cursor) (s : Store)
      → P s
      → P (replay_checked enforce_at cursor s).0
