-- ===== src/Chatstate/Scenarios/Requests.antt =====
-- Histories of runs, pending requests and idempotency keys.
use codex_runtime.Base.{
  ◌+◌, ◌≤◌, ◌≡◌, ◌≢◌, refl, text_eq, pos, true, none, List, [], ◌∷◌, lookup, insert, refine,
  count_values, ok, err, arith,
}
use codex_runtime.Domain.{no_reason}
use codex_runtime.Chatstate.Types.{
  PendingInput, PendingRecord, resolved, IdempotencyScope, IdempotencyEntry, IdempotencyResultRef,
  succeeded,
}
use codex_runtime.Chatstate.Failures.{already_running}
use codex_runtime.Chatstate.Keys.{
  active_run_key, replay_key, pending_key, idempotency_key, validate_run_scope,
  validate_idempotency_scope, same_scope,
}
use codex_runtime.Chatstate.Store.{
  normalize_limits, new_store, expire_pending, retain_until, cleanup_pending, cleanup_idempotency,
  cleanup,
}
use codex_runtime.Chatstate.Runs.{start_run, start_checked, new_run}
use codex_runtime.Chatstate.Pending.{
  new_pending, put_pending, find_pending, register_pending, register_checked, resolve_pending,
  resolve_found, claim_pending_resolution, granted,
}
use codex_runtime.Chatstate.Idempotency.{
  new_entry, reserve_entry, reserve_idempotency, find_entry, complete_idempotency, reserved,
}
use codex_runtime.Chatstate.Steps.Calls.{
  Call, registers_pending, resolves_pending, reserves_key, step, run,
}
use codex_runtime.Chatstate.Uniqueness.MapKeys.{run-HasMaps, new_store-HasMaps}
use codex_runtime.Chatstate.Uniqueness.Resolutions.{resolve_once}
use codex_runtime.Chatstate.Uniqueness.Retries.{start_run_twice, reserve_complete}
use codex_runtime.Chatstate.Scenarios.{s₁, few, epoch_text, empty_store, chat}

started : (start_run s₁ s₁ (chat 1) [] empty_store).1 ≡ ok (new_run s₁ (chat 1) [])
unfolding start_run start_checked validate_run_scope cleanup refine new_store normalize_limits
    lookup
started = refl

chat-valid : validate_run_scope (chat 1) ≡ none
unfolding validate_run_scope
chat-valid = refl

start_run_twice_example :
    (start_run s₁ s₁ (chat 1) (7 ∷ []) (start_run s₁ s₁ (chat 1) [] empty_store).0).1
    ≡ err (already_running (chat 1))
start_run_twice_example =
    start_run_twice s₁ s₁ s₁ s₁ (chat 1) (chat 1) [] (7 ∷ []) empty_store (new_run s₁ (chat 1) [])
      started refl chat-valid

abbrev request : PendingInput
request = record {
  run_scope = chat 1;
  pending_request_id = 112 ∷ [];
  ttl = pos 0;
  reason = no_reason;
}

abbrev asked : List Call
asked = registers_pending s₁ s₁ request ∷ []

abbrev answered : PendingRecord
answered = record (new_pending s₁ 1800000000000 request) {
  status = resolved;
  resolved_at_unix_ms = 1000;
}

asked-resolved :
    (resolve_pending s₁ s₁ (chat 1) (112 ∷ []) (run empty_store asked)).1 ≡ granted answered
unfolding run step register_pending register_checked new_pending put_pending find_pending
    resolve_pending resolve_found validate_run_scope pending_key replay_key active_run_key cleanup
    refine cleanup_pending expire_pending retain_until new_store normalize_limits lookup insert
    count_values text_eq
asked-resolved = refl

resolve_once_example :
    let s' =
      run
        (resolve_pending s₁ s₁ (chat 1) (112 ∷ []) (run empty_store asked)).0
        (resolves_pending s₁ s₁ (chat 1) (112 ∷ []) ∷ []) in
    ((resolve_pending s₁ s₁ (chat 1) (112 ∷ []) s').1 ≢ granted answered)
    × ((claim_pending_resolution s₁ s₁ (chat 1) (112 ∷ []) s').1 ≢ granted answered)
resolve_once_example =
    resolve_once epoch_text s₁ [] few asked (resolves_pending s₁ s₁ (chat 1) (112 ∷ []) ∷ [])
      (chat 1) (112 ∷ []) s₁ s₁ s₁ s₁ answered answered asked-resolved (tt, tt)

abbrev sends : IdempotencyScope
sends = record {
  operation = 111 ∷ [];
  session_group_id = 103 ∷ [];
  workspace_id = 119 ∷ [];
  chat_id = 1 ∷ [];
  pending_request_id = [];
  client_message_id = [];
  key = 75 ∷ [];
}

abbrev outcome : IdempotencyResultRef
outcome = record {
  chat_id = 1 ∷ [];
  run_id = 114 ∷ [];
  status = [];
  last_event_id = 3;
  event_cursor = [];
}

abbrev sent : List Call
sent = reserves_key s₁ s₁ sends ∷ []

abbrev done : IdempotencyEntry
done = record (new_entry s₁ sends) { state = succeeded; result = outcome }

sent-completed : (complete_idempotency s₁ s₁ sends outcome (run empty_store sent)).1 ≡ ok done
unfolding run step reserve_idempotency reserve_entry new_entry validate_idempotency_scope
    idempotency_key find_entry complete_idempotency same_scope cleanup refine cleanup_idempotency
    new_store normalize_limits lookup insert text_eq
sent-completed = refl

sent-later : 2000000000 ≤ 1000000000 + (run empty_store sent).limits.replay_ttl
unfolding run step reserve_idempotency reserve_entry new_entry validate_idempotency_scope
    idempotency_key cleanup refine cleanup_idempotency new_store normalize_limits lookup insert
    text_eq
sent-later = omega arith

reserve_complete_example :
    ((reserve_idempotency 2000000000 2000000000 sends
        (complete_idempotency s₁ s₁ sends outcome (run empty_store sent)).0).1
      ≡ reserved done true)
    × (done.result ≡ outcome)
reserve_complete_example =
    reserve_complete s₁ s₁ 2000000000 2000000000 sends outcome done (run empty_store sent)
      (run-HasMaps empty_store sent (new_store-HasMaps epoch_text s₁ [] few)) sent-completed
      sent-later
