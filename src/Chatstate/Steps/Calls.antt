-- ===== src/Chatstate/Steps/Calls.antt =====
-- gateway/internal/chatstate: the store's operations as the steps of its callers. The mutex makes
-- each method one step. The numbers are the clock's readings, in the order of the source.
use codex_runtime.Base.{ℕ, Text, Bool, true, false, All, List, [], ◌∷◌}
use codex_runtime.Chatstate.Types.{
  RunScope, RunState, EventInput, Cursor, PendingInput, IdempotencyScope, IdempotencyResultRef,
  DiagnosticRecord,
}
use codex_runtime.Chatstate.Store.{Store}
use codex_runtime.Chatstate.Channels.{subscribe, unsubscribe, receive}
use codex_runtime.Chatstate.Runs.{
  start_run, reserve_active_run_capacity, release_active_run_capacity, start_run_with_reservation,
  update_run_state, restore_run_state_after_pending, bind_run_id, complete_run,
}
use codex_runtime.Chatstate.Pending.{
  register_pending, register_pending_for_active_run, claim_pending_resolution,
  release_pending_resolution_claim, pending_request, resolve_pending,
}
use codex_runtime.Chatstate.Replay.{append_event, replay}
use codex_runtime.Chatstate.Idempotency.{
  reserve_idempotency, complete_idempotency, release_idempotency, record_diagnostic,
}

pub data Call : Type 0 where
  starts_run : ℕ → ℕ → RunScope → Text → Call
  reserves_capacity : ℕ → IdempotencyScope → Call
  releases_capacity : IdempotencyScope → Call
  starts_reserved_run : ℕ → ℕ → IdempotencyScope → RunScope → Text → Call
  updates_run : ℕ → RunScope → RunState → Call
  restores_run : ℕ → RunScope → Call
  binds_run : ℕ → RunScope → Text → Call
  completes_run : ℕ → RunScope → RunState → Call
  appends_event : ℕ → ℕ → ℕ → EventInput → Call
  subscribes : RunScope → Call
  unsubscribes : RunScope → ℕ → Call
  receives : ℕ → Call
  replays : ℕ → ℕ → Cursor → Call
  registers_pending : ℕ → ℕ → PendingInput → Call
  registers_for_run : ℕ → ℕ → PendingInput → Call
  claims_pending : ℕ → ℕ → RunScope → Text → Call
  releases_claim : ℕ → ℕ → RunScope → Text → Call
  asks_pending : ℕ → RunScope → Text → Call
  resolves_pending : ℕ → ℕ → RunScope → Text → Call
  reserves_key : ℕ → ℕ → IdempotencyScope → Call
  completes_key : ℕ → ℕ → IdempotencyScope → IdempotencyResultRef → Call
  releases_key : ℕ → IdempotencyScope → Call
  records_diagnostic : ℕ → DiagnosticRecord → Call

unfoldable pub step : Store → Call → Store
step s (starts_run c t scope key) = (start_run c t scope key s).0
step s (reserves_capacity c scope) = (reserve_active_run_capacity c scope s).0
step s (releases_capacity scope) = (release_active_run_capacity scope s).0
step s (starts_reserved_run c t reservation scope key) =
    (start_run_with_reservation c t reservation scope key s).0
step s (updates_run t scope state) = (update_run_state t scope state s).0
step s (restores_run t scope) = (restore_run_state_after_pending t scope s).0
step s (binds_run t scope id) = (bind_run_id t scope id s).0
step s (completes_run t scope state) = (complete_run t scope state s).0
step s (appends_event c t e input) = (append_event c t e input s).0
step s (subscribes scope) = (subscribe scope s).0
step s (unsubscribes scope id) = unsubscribe scope id s
step s (receives id) = (receive id s).0
step s (replays c e cursor) = (replay c e cursor s).0
step s (registers_pending c t input) = (register_pending c t input s).0
step s (registers_for_run c t input) = (register_pending_for_active_run c t input s).0
step s (claims_pending c t scope id) = (claim_pending_resolution c t scope id s).0
step s (releases_claim c t scope id) = (release_pending_resolution_claim c t scope id s).0
step s (asks_pending c scope id) = (pending_request c scope id s).0
step s (resolves_pending c t scope id) = (resolve_pending c t scope id s).0
step s (reserves_key c t scope) = (reserve_idempotency c t scope s).0
step s (completes_key c t scope result) = (complete_idempotency c t scope result s).0
step s (releases_key c scope) = (release_idempotency c scope s).0
step s (records_diagnostic t r) = record_diagnostic t r s

unfoldable pub run : Store → List Call → Store
run s [] = s
run s (c ∷ cs) = run (step s c) cs

-- The calls that write the replay buffers.
abbrev pub touches_replay : Call → Bool
touches_replay (appends_event c t u input) = true
touches_replay (replays c u cursor) = true
touches_replay _ = false

-- A call that registers a pending request does so from an input of the set.
abbrev pub Registers : (PendingInput → Type 0) → Call → Type 0
Registers Input (registers_pending c t input) = Input input
Registers Input (registers_for_run c t input) = Input input
Registers Input _ = Unit

abbrev pub AnyInput : PendingInput → Type 0
AnyInput input = Unit

-- Where any input may be registered, every call qualifies, and so every history.
pub Registers-any_call : (c : Call) → Registers AnyInput c
Registers-any_call (registers_pending c t input) = tt
Registers-any_call (registers_for_run c t input) = tt
Registers-any_call _ = tt

pub Registers-any : (cs : List Call) → All (Registers AnyInput) cs
Registers-any [] = tt
Registers-any (c ∷ cs) = (Registers-any_call c, Registers-any cs)
