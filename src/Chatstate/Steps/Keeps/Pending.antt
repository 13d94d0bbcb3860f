-- ===== src/Chatstate/Steps/Keeps/Pending.antt =====
-- gateway/internal/chatstate/store.go: the operations on pending requests as changes of the store.
use codex_runtime.Base.{ℕ, Text, arith, ◌≡◌, some}
use codex_runtime.Chatstate.Types.{
  RunScope, RunRecord, PendingInput, PendingRecord, active, claimed, expired, resolved,
}
use codex_runtime.Chatstate.Store.{Store, cleanup, unix_ms}
use codex_runtime.Chatstate.Runs.{known_run, put_run}
use codex_runtime.Chatstate.Pending.{
  find_pending, register_checked, register_pending, register_for_run,
  register_pending_for_active_run, claim_found, claim_pending_resolution, release_found,
  release_pending_resolution_claim, pending_request, resolve_found, resolve_pending, marked_pending,
}
use codex_runtime.Chatstate.Steps.Keeps.{Keeps}

module _ {Input : PendingInput → Type 0} {P : Store → Type 0} (k : Keeps Input P) where
  register_checked-keeps :
      (now : ℕ) (input : PendingInput) (s : Store)
      → Input input
      → P s
      → P (register_checked now input s).0
  unfolding register_checked
  register_checked-keeps now input s i v =
      ground (arith, k.pending_added now s.limits.pending_ttl input s i v)

  pub register_pending-keeps :
      (c now : ℕ) (input : PendingInput) (s : Store)
      → Input input
      → P s
      → P (register_pending c now input s).0
  unfolding register_pending
  register_pending-keeps c now input s i v =
      ground (arith, register_checked-keeps now input (cleanup c s) i, k.cleaned c s v)

  register_for_run-keeps :
      (now : ℕ) (input : PendingInput) (r : RunRecord) (s : Store)
      → Input input
      → P s
      → known_run input.run_scope s ≡ some r
      → P (register_for_run now input r s).0
  unfolding register_for_run put_run
  register_for_run-keeps now input r s i v h = ground (
    arith,
    k.run_put input.run_scope (marked_pending now r) r s v h,
    k.pending_added now s.limits.pending_ttl input
        (put_run input.run_scope (marked_pending now r) s).0 i,
  )

  pub register_pending_for_active_run-keeps :
      (c now : ℕ) (input : PendingInput) (s : Store)
      → Input input
      → P s
      → P (register_pending_for_active_run c now input s).0
  unfolding register_pending_for_active_run
  register_pending_for_active_run-keeps c now input s i v =
      grind (arith, register_for_run-keeps, k.cleaned c s v)

  claim_found-keeps :
      (now : ℕ) (scope : RunScope) (id : Text) (r : PendingRecord) (s : Store)
      → P s
      → find_pending scope id s ≡ some r
      → P (claim_found now scope id r s).0
  unfolding claim_found
  claim_found-keeps now scope id r s v h = ground (
    arith,
    k.pending_put scope id (record r { status = expired }) r s v h,
    k.pending_put scope id (record r { status = claimed }) r s v h,
  )

  pub claim_pending_resolution-keeps :
      (c now : ℕ) (scope : RunScope) (id : Text) (s : Store)
      → P s
      → P (claim_pending_resolution c now scope id s).0
  unfolding claim_pending_resolution
  claim_pending_resolution-keeps c now scope id s v =
      grind (arith, claim_found-keeps, k.cleaned c s v)

  release_found-keeps :
      (now : ℕ) (scope : RunScope) (id : Text) (r : PendingRecord) (s : Store)
      → P s
      → find_pending scope id s ≡ some r
      → P (release_found now scope id r s).0
  unfolding release_found
  release_found-keeps now scope id r s v h = ground (
    arith,
    k.pending_put scope id (record r { status = expired }) r s v h,
    k.pending_put scope id (record r { status = active }) r s v h,
  )

  pub release_pending_resolution_claim-keeps :
      (c now : ℕ) (scope : RunScope) (id : Text) (s : Store)
      → P s
      → P (release_pending_resolution_claim c now scope id s).0
  unfolding release_pending_resolution_claim
  release_pending_resolution_claim-keeps c now scope id s v =
      grind (arith, release_found-keeps, k.cleaned c s v)

  pub pending_request-keeps :
      (c : ℕ) (scope : RunScope) (id : Text) (s : Store) → P s → P (pending_request c scope id s).0
  unfolding pending_request
  pending_request-keeps c scope id s v = ground (arith, k.cleaned c s v)

  resolve_found-keeps :
      (now : ℕ) (scope : RunScope) (id : Text) (r : PendingRecord) (s : Store)
      → P s
      → find_pending scope id s ≡ some r
      → P (resolve_found now scope id r s).0
  unfolding resolve_found
  resolve_found-keeps now scope id r s v h = ground (
    arith,
    k.pending_put scope id (record r { status = expired }) r s v h,
    k.pending_put scope id (record r { status = resolved; resolved_at_unix_ms = unix_ms now }) r s v
        h,
  )

  pub resolve_pending-keeps :
      (c now : ℕ) (scope : RunScope) (id : Text) (s : Store)
      → P s
      → P (resolve_pending c now scope id s).0
  unfolding resolve_pending
  resolve_pending-keeps c now scope id s v = grind (arith, resolve_found-keeps, k.cleaned c s v)
