-- ===== src/Chatstate/Steps/Keeps/Histories.antt =====
-- gateway/internal/chatstate/store.go: the other operations as changes, every step and history.
use codex_runtime.Base.{ℕ, ℤ, pos, negsuc, ◌≡◌, refl, false, List, [], ◌∷◌, All, arith}
use codex_runtime.Chatstate.Types.{
  PendingInput, EventInput, Cursor, IdempotencyScope, IdempotencyResultRef,
}
use codex_runtime.Chatstate.Store.{Store, cleanup}
use codex_runtime.Chatstate.Replay.{append_event, append_sized, replay}
use codex_runtime.Chatstate.Idempotency.{
  reserve_entry, reserve_idempotency, complete_idempotency, release_idempotency,
}
use codex_runtime.Chatstate.Steps.Calls.{
  Call, starts_run, reserves_capacity, releases_capacity, starts_reserved_run, updates_run,
  restores_run, binds_run, completes_run, appends_event, subscribes, unsubscribes, receives,
  replays, registers_pending, registers_for_run, claims_pending, releases_claim, asks_pending,
  resolves_pending, reserves_key, completes_key, releases_key, records_diagnostic, step, run,
  touches_replay, Registers,
}
use codex_runtime.Chatstate.Steps.Keeps.{Keeps, KeepsEvents}
use codex_runtime.Chatstate.Steps.Keeps.Runs
use codex_runtime.Chatstate.Steps.Keeps.Pending

module _ {Input : PendingInput → Type 0} {P : Store → Type 0} (k : Keeps Input P) where
  reserve_entry-keeps :
      (now : ℕ) (scope : IdempotencyScope) (s : Store) → P s → P (reserve_entry now scope s).0
  unfolding reserve_entry
  reserve_entry-keeps now scope s v = ground (arith, k.entry_added now scope s v)

  reserve_idempotency-keeps :
      (c now : ℕ) (scope : IdempotencyScope) (s : Store)
      → P s
      → P (reserve_idempotency c now scope s).0
  unfolding reserve_idempotency
  reserve_idempotency-keeps c now scope s v =
      ground (arith, reserve_entry-keeps now scope (cleanup c s), k.cleaned c s v)

  complete_idempotency-keeps :
      (c now : ℕ) (scope : IdempotencyScope) (result : IdempotencyResultRef) (s : Store)
      → P s
      → P (complete_idempotency c now scope result s).0
  unfolding complete_idempotency
  complete_idempotency-keeps c now scope result s v = grind (arith, k.entry_put, k.cleaned c s v)

  release_idempotency-keeps :
      (c : ℕ) (scope : IdempotencyScope) (s : Store) → P s → P (release_idempotency c scope s).0
  unfolding release_idempotency
  release_idempotency-keeps c scope s v =
      ground (arith, k.entry_removed scope (cleanup c s), k.cleaned c s v)

  pub step_other-keeps :
      (s : Store) (c : Call) → touches_replay c ≡ false → Registers Input c → P s → P (step s c)
  unfolding step
  step_other-keeps s (starts_run c t scope key) o i v = Runs.start_run-keeps k c t scope key s v
  step_other-keeps s (reserves_capacity c scope) o i v =
      Runs.reserve_active_run_capacity-keeps k c scope s v
  step_other-keeps s (releases_capacity scope) o i v =
      Runs.release_active_run_capacity-keeps k scope s v
  step_other-keeps s (starts_reserved_run c t reservation scope key) o i v =
      Runs.start_run_with_reservation-keeps k c t reservation scope key s v
  step_other-keeps s (updates_run t scope state) o i v =
      Runs.update_run_state-keeps k t scope state s v
  step_other-keeps s (restores_run t scope) o i v =
      Runs.restore_run_state_after_pending-keeps k t scope s v
  step_other-keeps s (binds_run t scope id) o i v = Runs.bind_run_id-keeps k t scope id s v
  step_other-keeps s (completes_run t scope state) o i v =
      Runs.complete_run-keeps k t scope state s v
  step_other-keeps s (appends_event c t e input) o i v = cc
  step_other-keeps s (subscribes scope) o i v = k.subscribed scope s v
  step_other-keeps s (unsubscribes scope id) o i v = k.unsubscribed scope id s v
  step_other-keeps s (receives id) o i v = k.received id s v
  step_other-keeps s (replays c e cursor) o i v = cc
  step_other-keeps s (registers_pending c t input) o i v =
      Pending.register_pending-keeps k c t input s i v
  step_other-keeps s (registers_for_run c t input) o i v =
      Pending.register_pending_for_active_run-keeps k c t input s i v
  step_other-keeps s (claims_pending c t scope id) o i v =
      Pending.claim_pending_resolution-keeps k c t scope id s v
  step_other-keeps s (releases_claim c t scope id) o i v =
      Pending.release_pending_resolution_claim-keeps k c t scope id s v
  step_other-keeps s (asks_pending c scope id) o i v =
      Pending.pending_request-keeps k c scope id s v
  step_other-keeps s (resolves_pending c t scope id) o i v =
      Pending.resolve_pending-keeps k c t scope id s v
  step_other-keeps s (reserves_key c t scope) o i v = reserve_idempotency-keeps c t scope s v
  step_other-keeps s (completes_key c t scope result) o i v =
      complete_idempotency-keeps c t scope result s v
  step_other-keeps s (releases_key c scope) o i v = release_idempotency-keeps c scope s v
  step_other-keeps s (records_diagnostic t r) o i v = k.diagnostic_recorded t r s v

module _ {Input : PendingInput → Type 0} {P : Store → Type 0} (k : Keeps Input P)
    (e : KeepsEvents P) where
  append_sized-keeps :
      (c t u : ℕ) (input : EventInput) (size : ℤ) (s : Store)
      → P s
      → P (append_sized c t u input size s).0
  append_sized-keeps c t u input (pos n) s v =
      e.event_appended t u input n (cleanup c s) (k.cleaned c s v)
  append_sized-keeps c t u input (negsuc n) s v = v

  append_event-keeps :
      (c t u : ℕ) (input : EventInput) (s : Store) → P s → P (append_event c t u input s).0
  unfolding append_event
  append_event-keeps c t u input s v =
      ground (arith, append_sized-keeps c t u input input.size_bytes s v)

  replay-keeps : (c u : ℕ) (cursor : Cursor) (s : Store) → P s → P (replay c u cursor s).0
  unfolding replay
  replay-keeps c u cursor s v = e.replayed u cursor (cleanup c s) (k.cleaned c s v)

  pub step-keeps : (s : Store) (c : Call) → Registers Input c → P s → P (step s c)
  unfolding step
  step-keeps s (appends_event c t u input) i v = append_event-keeps c t u input s v
  step-keeps s (replays c u cursor) i v = replay-keeps c u cursor s v
  step-keeps s c i v = step_other-keeps k s c refl i v

  -- What every change keeps, every history keeps.
  pub run-keeps : (s : Store) (cs : List Call) → All (Registers Input) cs → P s → P (run s cs)
  unfolding run
  run-keeps s [] i v = v
  run-keeps s (c ∷ cs) i v = run-keeps (step s c) cs i.1 (step-keeps s c i.0 v)
