-- ===== src/Chatstate/Idempotency.antt =====
-- gateway/internal/chatstate/store.go: idempotency entries and diagnostics.
use codex_runtime.Base.{
  ℕ, Bool, true, false, Option, none, some, [], ◌∷◌, ◌++◌, lookup, insert, remove, length, drop,
  leb, ◌==◌, if◌then◌else◌, Result, ok, err,
}
use codex_runtime.Domain.{GatewayError}
use codex_runtime.Chatstate.Types.{
  IdempotencyScope, in_flight, succeeded, IdempotencyResultRef, IdempotencyEntry, DiagnosticRecord,
}
use codex_runtime.Chatstate.Failures.{
  resource_exhausted, idempotency_scope_mismatch, idempotency_unavailable,
}
use codex_runtime.Chatstate.Keys.{
  idempotency_key, validate_idempotency_scope, chat_scope, same_scope, safe_label,
}
use codex_runtime.Chatstate.Store.{Store, unix_ms, cleanup, is_in_flight}

-- What ReserveIdempotency returns: an entry and whether it existed, or an error and the same.
pub data ReserveReply : Type 0 where
  reserved : IdempotencyEntry → Bool → ReserveReply
  refused : GatewayError → Bool → ReserveReply

abbrev no_result : IdempotencyResultRef
no_result = record { chat_id = []; run_id = []; status = []; last_event_id = 0; event_cursor = [] }

unfoldable pub new_entry : ℕ → IdempotencyScope → IdempotencyEntry
new_entry now scope = record {
  scope = scope;
  state = in_flight;
  result = no_result;
  created_at_unix_ms = unix_ms now;
  updated_at_unix_ms = unix_ms now;
}

unfoldable pub reserve_entry : ℕ → IdempotencyScope → Store → Store × ReserveReply
reserve_entry now scope s = elim (lookup (idempotency_key scope) s.idempotency) [
  | some existing ↦ (
    s,
    if same_scope existing.scope scope
        then reserved existing true
        else refused (idempotency_scope_mismatch scope) true,
  )
  | none ↦
      if leb s.limits.idempotency_cap (length s.idempotency)
      then (
        s,
        refused (resource_exhausted "idempotency capacity exceeded" (chat_scope scope)) false,
      )
      else (
        record s {
          idempotency = insert (idempotency_key scope) (new_entry now scope) s.idempotency;
        },
        reserved (new_entry now scope) false,
      )
]

unfoldable pub reserve_idempotency : ℕ → ℕ → IdempotencyScope → Store → Store × ReserveReply
reserve_idempotency cleanup_at now scope s = elim (validate_idempotency_scope scope) [
  | some e ↦ (s, refused e false)
  | none ↦ reserve_entry now scope (cleanup cleanup_at s)
]

abbrev scoped : IdempotencyScope → Option IdempotencyEntry → Option IdempotencyEntry
scoped scope none = none
scoped scope (some entry) = if same_scope entry.scope scope then some entry else none

-- The entry of exactly this scope: `entry == nil || entry.Scope != scope` finds none.
unfoldable pub find_entry : IdempotencyScope → Store → Option IdempotencyEntry
find_entry scope s = scoped scope (lookup (idempotency_key scope) s.idempotency)

unfoldable pub complete_idempotency :
    ℕ
    → ℕ
    → IdempotencyScope
    → IdempotencyResultRef
    → Store
    → Store × Result GatewayError IdempotencyEntry
complete_idempotency cleanup_at now scope result s = elim (validate_idempotency_scope scope) [
  | some e ↦ (s, err e)
  | none ↦
      let s' = cleanup cleanup_at s in
      elim (find_entry scope s') [
        | none ↦ (s', err (idempotency_unavailable scope))
        | some entry ↦
            let done = record entry {
              state = succeeded;
              result = result;
              updated_at_unix_ms = unix_ms now;
            } in
            (
              record s' { idempotency = insert (idempotency_key scope) done s'.idempotency },
              ok done,
            )
      ]
]

unfoldable pub release_idempotency : ℕ → IdempotencyScope → Store → Store × Option GatewayError
release_idempotency cleanup_at scope s = elim (validate_idempotency_scope scope) [
  | some e ↦ (s, some e)
  | none ↦
      let s' = cleanup cleanup_at s in
      elim (find_entry scope s') [
        | none ↦ (s', some (idempotency_unavailable scope))
        | some entry ↦
            if is_in_flight entry.state
            then (record s' { idempotency = remove (idempotency_key scope) s'.idempotency }, none)
            else (s', some (idempotency_unavailable scope))
      ]
]

-- `Idempotency`, a lookup without a cleanup.
unfoldable pub idempotency_entry : IdempotencyScope → Store → Option IdempotencyEntry
idempotency_entry scope s = find_entry scope s

-- RecordDiagnostic's changes to the record that it is given.
unfoldable pub bounded_diagnostic : ℕ → DiagnosticRecord → DiagnosticRecord
bounded_diagnostic now r = record r {
  created_at_unix_ms = if r.created_at_unix_ms == 0 then unix_ms now else r.created_at_unix_ms;
  session_group_id = safe_label r.session_group_id;
  workspace_id = safe_label r.workspace_id;
  chat_id = safe_label r.chat_id;
  run_id = safe_label r.run_id;
  request_id = safe_label r.request_id;
  state = safe_label r.state;
}

-- At the cap the oldest record makes room: all move down by one.
unfoldable pub record_diagnostic : ℕ → DiagnosticRecord → Store → Store
record_diagnostic now r s = record s {
  diagnostics =
      if leb s.limits.diagnostics_cap (length s.diagnostics)
      then drop 1 s.diagnostics ++ (bounded_diagnostic now r ∷ [])
      else s.diagnostics ++ (bounded_diagnostic now r ∷ []);
}
