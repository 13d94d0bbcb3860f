-- ===== src/Chatstate/Steps/Keeps/Runs.antt =====
-- gateway/internal/chatstate/store.go: the operations on runs as changes of the store.
use codex_runtime.Base.{ℕ, Text, arith}
use codex_runtime.Chatstate.Types.{RunScope, RunState, IdempotencyScope, PendingInput}
use codex_runtime.Chatstate.Store.{Store, cleanup}
use codex_runtime.Chatstate.Runs.{
  start_checked, start_run, reserve_checked, reserve_active_run_capacity,
  release_active_run_capacity, start_reserved, start_run_with_reservation, update_run_state,
  restore_run_state_after_pending, bind_run_id, complete_run,
}
use codex_runtime.Chatstate.Steps.Keeps.{Keeps}

module _ {Input : PendingInput → Type 0} {P : Store → Type 0} (k : Keeps Input P) where
  start_checked-keeps :
      (now : ℕ) (scope : RunScope) (key : Text) (s : Store)
      → P s
      → P (start_checked now scope key s).0
  unfolding start_checked
  start_checked-keeps now scope key s v = ground (arith, k.run_added now scope key s v)

  pub start_run-keeps :
      (c now : ℕ) (scope : RunScope) (key : Text) (s : Store)
      → P s
      → P (start_run c now scope key s).0
  unfolding start_run
  start_run-keeps c now scope key s v =
      ground (arith, start_checked-keeps now scope key (cleanup c s), k.cleaned c s v)

  reserve_checked-keeps :
      (scope : IdempotencyScope) (s : Store) → P s → P (reserve_checked scope s).0
  unfolding reserve_checked
  reserve_checked-keeps scope s v = ground (arith, k.capacity_reserved scope s v)

  pub reserve_active_run_capacity-keeps :
      (c : ℕ) (scope : IdempotencyScope) (s : Store)
      → P s
      → P (reserve_active_run_capacity c scope s).0
  unfolding reserve_active_run_capacity
  reserve_active_run_capacity-keeps c scope s v =
      ground (arith, reserve_checked-keeps scope (cleanup c s), k.cleaned c s v)

  pub release_active_run_capacity-keeps :
      (scope : IdempotencyScope) (s : Store) → P s → P (release_active_run_capacity scope s).0
  unfolding release_active_run_capacity
  release_active_run_capacity-keeps scope s v = ground (arith, k.capacity_released scope s v)

  start_reserved-keeps :
      (now : ℕ) (reservation : IdempotencyScope) (scope : RunScope) (key : Text) (s : Store)
      → P s
      → P (start_reserved now reservation scope key s).0
  unfolding start_reserved
  start_reserved-keeps now reservation scope key s v =
      ground (arith, k.reserved_run_added now reservation scope key s v)

  pub start_run_with_reservation-keeps :
      (c now : ℕ) (reservation : IdempotencyScope) (scope : RunScope) (key : Text) (s : Store)
      → P s
      → P (start_run_with_reservation c now reservation scope key s).0
  unfolding start_run_with_reservation
  start_run_with_reservation-keeps c now reservation scope key s v =
      ground (arith, start_reserved-keeps now reservation scope key (cleanup c s), k.cleaned c s v)

  pub update_run_state-keeps :
      (now : ℕ) (scope : RunScope) (state : RunState) (s : Store)
      → P s
      → P (update_run_state now scope state s).0
  unfolding update_run_state
  update_run_state-keeps now scope state s v = grind (arith, k.run_put)

  pub restore_run_state_after_pending-keeps :
      (now : ℕ) (scope : RunScope) (s : Store)
      → P s
      → P (restore_run_state_after_pending now scope s).0
  unfolding restore_run_state_after_pending
  restore_run_state_after_pending-keeps now scope s v = grind (arith, k.run_put)

  pub bind_run_id-keeps :
      (now : ℕ) (scope : RunScope) (id : Text) (s : Store) → P s → P (bind_run_id now scope id s).0
  unfolding bind_run_id
  bind_run_id-keeps now scope id s v = grind (arith, k.run_put)

  pub complete_run-keeps :
      (now : ℕ) (scope : RunScope) (state : RunState) (s : Store)
      → P s
      → P (complete_run now scope state s).0
  unfolding complete_run
  complete_run-keeps now scope state s v = grind (arith, k.run_finished)
