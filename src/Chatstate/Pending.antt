-- ===== src/Chatstate/Pending.antt =====
-- gateway/internal/chatstate/store.go: pending requests, from registration to resolution.
use codex_runtime.Base.{
  ℕ, ◌+◌, or_default, Text, Bool, true, false, ◌||◌, not, Option, none, some, lookup, insert, ltb,
  leb, if◌then◌else◌,
}
use codex_runtime.Domain.{GatewayError}
use codex_runtime.Chatstate.Types.{
  RunScope, RunRecord, pending, PendingInput, PendingRecord, PendingStatus, active, claimed,
  resolved, expired,
}
use codex_runtime.Chatstate.Failures.{
  invalid_request, resource_exhausted, pending_unavailable, pending_already_resolved,
}
use codex_runtime.Chatstate.Keys.{
  pending_key, is_empty, validate_run_scope, is_terminal_run_state, is_open,
}
use codex_runtime.Chatstate.Store.{Store, unix_ms, cleanup, active_pending_count}
use codex_runtime.Chatstate.Runs.{known_run, put_run, is_interrupting}

-- What an operation on a pending request returns: a record, an error, or both.
pub data PendingReply : Type 0 where
  granted : PendingRecord → PendingReply
  refused : GatewayError → PendingReply
  refused_with : PendingRecord → GatewayError → PendingReply

-- What RegisterPendingForActiveRun returns: `(_, _, false, nil)`, `(_, _, b, err)`, or both
-- records with `true`.
pub data Registration : Type 0 where
  no_active_run : Registration
  rejected : Bool → GatewayError → Registration
  registered : PendingRecord → RunRecord → Registration

unfoldable pub new_pending : ℕ → ℕ → PendingInput → PendingRecord
new_pending now pending_ttl input = record {
  run_scope = input.run_scope;
  pending_request_id = input.pending_request_id;
  status = active;
  reason = input.reason;
  created_at_unix_ms = unix_ms now;
  expires_at_unix_ms = unix_ms (now + or_default input.ttl pending_ttl);
  resolved_at_unix_ms = 0;
}

unfoldable pub put_pending : RunScope → Text → PendingRecord → Store → Store
put_pending scope id r s = record s { pending = insert (pending_key scope id) r s.pending }

unfoldable pub find_pending : RunScope → Text → Store → Option PendingRecord
find_pending scope id s = lookup (pending_key scope id) s.pending

-- The checks of an input before the store is locked.
abbrev validate_input : PendingInput → Option GatewayError
validate_input input = elim (validate_run_scope input.run_scope) [
  | some e ↦ some e
  | none ↦
      if is_empty input.pending_request_id
      then some (invalid_request "pending request id is required" input.run_scope.scope)
      else none
]

unfoldable pub register_checked : ℕ → PendingInput → Store → Store × PendingReply
register_checked now input s =
    let r = new_pending now s.limits.pending_ttl input in
    if leb s.limits.pending_cap (active_pending_count s)
    then (s, refused (resource_exhausted "pending capacity exceeded" input.run_scope.scope))
    else (put_pending input.run_scope input.pending_request_id r s, granted r)

unfoldable pub register_pending : ℕ → ℕ → PendingInput → Store → Store × PendingReply
register_pending cleanup_at now input s = elim (validate_input input) [
  | some e ↦ (s, refused e)
  | none ↦ register_checked now input (cleanup cleanup_at s)
]

-- The run of a pending request.
unfoldable pub marked_pending : ℕ → RunRecord → RunRecord
marked_pending now run = record run { state = pending; updated_at_unix_ms = unix_ms now }

-- RegisterPendingForActiveRun once the run is found.
unfoldable pub register_for_run : ℕ → PendingInput → RunRecord → Store → Store × Registration
register_for_run now input run s =
    let r = new_pending now s.limits.pending_ttl input in
    if is_interrupting run.state || is_terminal_run_state run.state
    then (s, no_active_run)
    else if leb s.limits.pending_cap (active_pending_count s)
    then (s, rejected true (resource_exhausted "pending capacity exceeded" input.run_scope.scope))
    else (
      put_pending input.run_scope input.pending_request_id r
          (put_run input.run_scope (marked_pending now run) s).0,
      registered r (marked_pending now run),
    )

unfoldable pub register_pending_for_active_run : ℕ → ℕ → PendingInput → Store → Store × Registration
register_pending_for_active_run cleanup_at now input s = elim (validate_input input) [
  | some e ↦ (s, rejected false e)
  | none ↦
      let s' = cleanup cleanup_at s in
      elim (known_run input.run_scope s') [
        | none ↦ (s', no_active_run)
        | some run ↦ register_for_run now input run s'
      ]
]

abbrev pub is_active : PendingStatus → Bool
is_active active = true
is_active _ = false

abbrev pub is_claimed : PendingStatus → Bool
is_claimed claimed = true
is_claimed _ = false

-- `s.now().UnixMilli() > record.ExpiresAtUnixMS`
abbrev pub is_overdue : ℕ → PendingRecord → Bool
is_overdue now r = ltb r.expires_at_unix_ms (unix_ms now)

unfoldable pub claim_found : ℕ → RunScope → Text → PendingRecord → Store → Store × PendingReply
claim_found now scope id r s =
    let late = record r { status = expired } in
    let held = record r { status = claimed } in
    if is_overdue now r
    then (put_pending scope id late s, refused_with late (pending_unavailable scope id))
    else if not (is_active r.status)
    then (s, refused_with r (pending_already_resolved scope id))
    else (put_pending scope id held s, granted held)

unfoldable pub claim_pending_resolution : ℕ → ℕ → RunScope → Text → Store → Store × PendingReply
claim_pending_resolution cleanup_at now scope id s = elim (validate_run_scope scope) [
  | some e ↦ (s, refused e)
  | none ↦
      let s' = cleanup cleanup_at s in
      elim (find_pending scope id s') [
        | none ↦ (s', refused (pending_unavailable scope id))
        | some r ↦ claim_found now scope id r s'
      ]
]

unfoldable pub release_found :
    ℕ → RunScope → Text → PendingRecord → Store → Store × Option GatewayError
release_found now scope id r s =
    if not (is_claimed r.status)
    then (s, some (pending_already_resolved scope id))
    else if is_overdue now r
    then (
      put_pending scope id (record r { status = expired }) s,
      some (pending_unavailable scope id),
    )
    else (put_pending scope id (record r { status = active }) s, none)

unfoldable pub release_pending_resolution_claim :
    ℕ → ℕ → RunScope → Text → Store → Store × Option GatewayError
release_pending_resolution_claim cleanup_at now scope id s = elim (validate_run_scope scope) [
  | some e ↦ (s, some e)
  | none ↦
      let s' = cleanup cleanup_at s in
      elim (find_pending scope id s') [
        | none ↦ (s', some (pending_unavailable scope id))
        | some r ↦ release_found now scope id r s'
      ]
]

-- `Pending`, a lookup that cleans up first.
unfoldable pub pending_request : ℕ → RunScope → Text → Store → Store × Option PendingRecord
pending_request cleanup_at scope id s = elim (validate_run_scope scope) [
  | some e ↦ (s, none)
  | none ↦
      let s' = cleanup cleanup_at s in
      elim (find_pending scope id s') [
        | none ↦ (s', none)
        | some r ↦ (s', if is_open r.status then some r else none)
      ]
]

unfoldable pub resolve_found : ℕ → RunScope → Text → PendingRecord → Store → Store × PendingReply
resolve_found now scope id r s =
    let late = record r { status = expired } in
    let done = record r { status = resolved; resolved_at_unix_ms = unix_ms now } in
    if is_overdue now r
    then (put_pending scope id late s, refused_with late (pending_unavailable scope id))
    else if not (is_open r.status)
    then (s, refused_with r (pending_already_resolved scope id))
    else (put_pending scope id done s, granted done)

unfoldable pub resolve_pending : ℕ → ℕ → RunScope → Text → Store → Store × PendingReply
resolve_pending cleanup_at now scope id s = elim (validate_run_scope scope) [
  | some e ↦ (s, refused e)
  | none ↦
      let s' = cleanup cleanup_at s in
      elim (find_pending scope id s') [
        | none ↦ (s', refused (pending_unavailable scope id))
        | some r ↦ resolve_found now scope id r s'
      ]
]
