-- ===== src/Chatstate/Runs.antt =====
-- gateway/internal/chatstate/store.go: the runs that are active, and the capacity that they and
-- the reservations take.
use codex_runtime.Base.{
  ℕ, Text, text_eq, Bool, true, false, not, Option, none, some, lookup, insert, remove, leb,
  if◌then◌else◌, is_some, Result, ok, err,
}
use codex_runtime.Domain.{GatewayError}
use codex_runtime.Chatstate.Types.{
  Scope, RunScope, RunState, starting, running, interrupting, RunRecord, IdempotencyScope,
}
use codex_runtime.Chatstate.Failures.{
  invalid_request, resource_exhausted, already_running, unknown_active_run,
}
use codex_runtime.Chatstate.Keys.{
  active_run_key, replay_key, active_run_reservation_key, is_empty, validate_run_scope,
  validate_idempotency_scope, chat_scope, is_terminal_run_state,
}
use codex_runtime.Chatstate.Store.{Store, unix_ms, cleanup, active_run_capacity_used}
use codex_runtime.Chatstate.Channels.{close_subscribers}

abbrev pub RunReply : Type 0
RunReply = Store × Result GatewayError RunRecord

-- `existing != nil && !isTerminalRunState(existing.State)`
abbrev pub in_progress : Option RunRecord → Bool
in_progress none = false
in_progress (some r) = not (is_terminal_run_state r.state)

-- The record that a run starts with.
unfoldable pub new_run : ℕ → RunScope → Text → RunRecord
new_run now scope idempotency_key = record {
  scope = scope.scope;
  run_id = scope.run_id;
  state = starting;
  idempotency_key = idempotency_key;
  started_at_unix_ms = unix_ms now;
  updated_at_unix_ms = unix_ms now;
}

-- StartRun once its scope is valid and the store is cleaned up.
unfoldable pub start_checked : ℕ → RunScope → Text → Store → RunReply
start_checked now scope idempotency_key s =
    let key = active_run_key scope.scope in
    if in_progress (lookup key s.active_runs)
    then (s, err (already_running scope))
    else if leb s.limits.active_runs_cap (active_run_capacity_used s)
    then (s, err (resource_exhausted "active run capacity exceeded" scope.scope))
    else (
      record s { active_runs = insert key (new_run now scope idempotency_key) s.active_runs },
      ok (new_run now scope idempotency_key),
    )

unfoldable pub start_run : ℕ → ℕ → RunScope → Text → Store → RunReply
start_run cleanup_at now scope idempotency_key s = elim (validate_run_scope scope) [
  | some e ↦ (s, err e)
  | none ↦ start_checked now scope idempotency_key (cleanup cleanup_at s)
]

unfoldable pub reserve_checked : IdempotencyScope → Store → Store × Result GatewayError (Unit {0})
reserve_checked scope s =
    let key = active_run_reservation_key scope in
    if is_some (lookup key s.active_run_reservations)
    then (s, ok tt)
    else if leb s.limits.active_runs_cap (active_run_capacity_used s)
    then (s, err (resource_exhausted "active run capacity exceeded" (chat_scope scope)))
    else (
      record s {
        active_run_reservations = insert key (chat_scope scope) s.active_run_reservations;
      },
      ok tt,
    )

unfoldable pub reserve_active_run_capacity :
    ℕ → IdempotencyScope → Store → Store × Result GatewayError (Unit {0})
reserve_active_run_capacity cleanup_at scope s = elim (validate_idempotency_scope scope) [
  | some e ↦ (s, err e)
  | none ↦ reserve_checked scope (cleanup cleanup_at s)
]

unfoldable pub release_active_run_capacity :
    IdempotencyScope → Store → Store × Result GatewayError (Unit {0})
release_active_run_capacity scope s = elim (validate_idempotency_scope scope) [
  | some e ↦ (s, err e)
  | none ↦ (
    record s {
      active_run_reservations = remove (active_run_reservation_key scope) s.active_run_reservations;
    },
    ok tt,
  )
]

unfoldable pub start_reserved : ℕ → IdempotencyScope → RunScope → Text → Store → RunReply
start_reserved now reservation scope idempotency_key s =
    let reservation_key = active_run_reservation_key reservation in
    let key = active_run_key scope.scope in
    if is_some (lookup reservation_key s.active_run_reservations)
    then if in_progress (lookup key s.active_runs) then (s, err (already_running scope)) else (
      record s {
        active_runs = insert key (new_run now scope idempotency_key) s.active_runs;
        active_run_reservations = remove reservation_key s.active_run_reservations;
      },
      ok (new_run now scope idempotency_key),
    )
    else (s, err (invalid_request "active run capacity reservation is required" scope.scope))

unfoldable pub start_run_with_reservation :
    ℕ → ℕ → IdempotencyScope → RunScope → Text → Store → RunReply
start_run_with_reservation cleanup_at now reservation scope idempotency_key s =
    elim (validate_idempotency_scope reservation) [
      | some e ↦ (s, err e)
      | none ↦ elim (validate_run_scope scope) [
        | some e ↦ (s, err e)
        | none ↦ start_reserved now reservation scope idempotency_key (cleanup cleanup_at s)
      ]
    ]

-- The record of exactly this run: `record == nil || record.RunID != scope.RunID` finds none.
abbrev same_run : RunScope → Option RunRecord → Option RunRecord
same_run scope none = none
same_run scope (some r) = if text_eq r.run_id scope.run_id then some r else none

unfoldable pub known_run : RunScope → Store → Option RunRecord
known_run scope s = same_run scope (lookup (active_run_key scope.scope) s.active_runs)

-- A write through the pointer `record`.
unfoldable pub put_run : RunScope → RunRecord → Store → RunReply
put_run scope r s =
    (record s { active_runs = insert (active_run_key scope.scope) r s.active_runs }, ok r)

unfoldable pub update_run_state : ℕ → RunScope → RunState → Store → RunReply
update_run_state now scope state s = elim (validate_run_scope scope) [
  | some e ↦ (s, err e)
  | none ↦ elim (known_run scope s) [
    | none ↦ (s, err (unknown_active_run scope))
    | some r ↦ put_run scope (record r { state = state; updated_at_unix_ms = unix_ms now }) s
  ]
]

abbrev pub is_interrupting : RunState → Bool
is_interrupting interrupting = true
is_interrupting _ = false

unfoldable pub restore_run_state_after_pending : ℕ → RunScope → Store → RunReply
restore_run_state_after_pending now scope s = elim (validate_run_scope scope) [
  | some e ↦ (s, err e)
  | none ↦ elim (known_run scope s) [
    | none ↦ (s, err (unknown_active_run scope))
    | some r ↦
        if is_interrupting r.state
        then (s, ok r)
        else put_run scope (record r { state = running; updated_at_unix_ms = unix_ms now }) s
  ]
]

unfoldable pub bind_run_id : ℕ → RunScope → Text → Store → RunReply
bind_run_id now scope run_id s = elim (validate_run_scope scope) [
  | some e ↦ (s, err e)
  | none ↦
      if is_empty run_id
      then (s, err (invalid_request "run id is required" scope.scope))
      else elim (known_run scope s) [
        | none ↦ (s, err (unknown_active_run scope))
        | some r ↦ put_run scope (record r { run_id = run_id; updated_at_unix_ms = unix_ms now }) s
      ]
]

-- The end of CompleteRun: the run leaves the map, and its subscribers' channels are closed.
unfoldable pub finish_run : ℕ → RunScope → RunState → RunRecord → Store → RunReply
finish_run now scope state r s = (
  close_subscribers (replay_key scope)
      (record s { active_runs = remove (active_run_key scope.scope) s.active_runs }),
  ok (record r { state = state; updated_at_unix_ms = unix_ms now }),
)

unfoldable pub complete_run : ℕ → RunScope → RunState → Store → RunReply
complete_run now scope state s =
    if is_terminal_run_state state
    then elim (validate_run_scope scope) [
      | some e ↦ (s, err e)
      | none ↦ elim (known_run scope s) [
        | none ↦ (s, err (unknown_active_run scope))
        | some r ↦ finish_run now scope state r s
      ]
    ]
    else (s, err (invalid_request "run completion requires a terminal state" scope.scope))

unfoldable pub active_run : Scope → Store → Option RunRecord
active_run scope s = elim (lookup (active_run_key scope) s.active_runs) [
  | none ↦ none
  | some r ↦ if is_terminal_run_state r.state then none else some r
]
