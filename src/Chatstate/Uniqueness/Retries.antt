-- ===== src/Chatstate/Uniqueness/Retries.antt =====
-- gateway/internal/chatstate/store.go: a second start of a chat, and a second request with the same
-- idempotency key.
use codex_runtime.Base.{
  ℕ, ◌∙◌, ◌+◌, ◌≤◌, Text, ◌≡◌, refl, true, none, some, lookup, insert, lookup-insert, lookup-refine,
  HasKeys-insert, text_eq_refl, ok, err, arith,
}
use codex_runtime.Chatstate.Types.{
  RunScope, RunRecord, IdempotencyScope, IdempotencyEntry, IdempotencyResultRef, succeeded,
}
use codex_runtime.Chatstate.Failures.{already_running}
use codex_runtime.Chatstate.Keys.{
  active_run_key, idempotency_key, validate_run_scope, validate_idempotency_scope, same_scope,
}
use codex_runtime.Chatstate.Store.{Store, cleanup, cleanup_idempotency, of_unix_ms, unix_ms}
use codex_runtime.Chatstate.Runs.{start_run, start_checked, new_run}
use codex_runtime.Chatstate.Idempotency.{
  complete_idempotency, find_entry, reserve_idempotency, reserve_entry, reserved,
}
use codex_runtime.Chatstate.Uniqueness.MapKeys.{HasMaps, cleanup-HasMaps}

cleanup-active_runs : (now : ℕ) (s : Store) → (cleanup now s).active_runs ≡ s.active_runs
unfolding cleanup
cleanup-active_runs now s = refl

-- A chat whose run was just started refuses the next start whose scope is valid, whichever run id
-- it has.
pub start_run_twice :
    (c t d u : ℕ) (scope other : RunScope) (key key' : Text) (s : Store) (r : RunRecord)
    → (start_run c t scope key s).1 ≡ ok r
    → other.scope ≡ scope.scope
    → validate_run_scope other ≡ none
    → (start_run d u other key' (start_run c t scope key s).0).1 ≡ err (already_running other)
unfolding start_run start_checked new_run
start_run_twice c t d u scope other key key' s r h same valid = ground (
  arith,
  cleanup-active_runs d (start_run c t scope key s).0,
  text_eq_refl (active_run_key scope.scope),
  lookup-insert (active_run_key scope.scope) (active_run_key scope.scope) (new_run t scope key)
      (cleanup c s).active_runs,
)

-- What a later cleanup leaves of an entry that was just written.
lookup-cleanup_entry :
    (now : ℕ) (key : Text) (entry : IdempotencyEntry) (s : Store)
    → HasMaps s
    → lookup key
        (cleanup now (record s { idempotency = insert key entry s.idempotency })).idempotency
      ≡ cleanup_idempotency now s.limits.replay_ttl entry
unfolding cleanup
lookup-cleanup_entry now key entry s v = ground (
  arith,
  lookup-refine (cleanup_idempotency now s.limits.replay_ttl) key (insert key entry s.idempotency)
      (HasKeys-insert key entry s.idempotency v.idempotency),
  lookup-insert key key entry s.idempotency,
  text_eq_refl key,
)

find_entry-same :
    (scope : IdempotencyScope) (s : Store) (entry : IdempotencyEntry)
    → find_entry scope s ≡ some entry
    → same_scope entry.scope scope ≡ true
unfolding find_entry
find_entry-same scope s entry h = ground arith

abbrev completed : ℕ → IdempotencyResultRef → IdempotencyEntry → IdempotencyEntry
completed t result old = record old {
  state = succeeded;
  result = result;
  updated_at_unix_ms = unix_ms t;
}

complete_idempotency-inversion :
    (c t : ℕ) (scope : IdempotencyScope) (result : IdempotencyResultRef) (entry : IdempotencyEntry)
    (s : Store)
    → (complete_idempotency c t scope result s).1 ≡ ok entry
    → (old : IdempotencyEntry) × (find_entry scope (cleanup c s) ≡ some old)
      × (entry ≡ completed t result old)
      × (validate_idempotency_scope scope ≡ none)
      × ((complete_idempotency c t scope result s).0 ≡ record (cleanup c s) {
        idempotency =
            insert (idempotency_key scope) (completed t result old) (cleanup c s).idempotency;
      })
unfolding complete_idempotency
complete_idempotency-inversion c t scope result entry s h = ground arith

-- What a reservation finds, once the store is cleaned up.
reserve_idempotency-found :
    (d u : ℕ) (scope : IdempotencyScope) (entry : IdempotencyEntry) (s : Store)
    → validate_idempotency_scope scope ≡ none
    → lookup (idempotency_key scope) (cleanup d s).idempotency ≡ some entry
    → same_scope entry.scope scope ≡ true
    → (reserve_idempotency d u scope s).1 ≡ reserved entry true
unfolding reserve_idempotency reserve_entry
reserve_idempotency-found d u scope entry s h p q = ground arith

cleanup-limits : (c : ℕ) (s : Store) → (cleanup c s).limits ≡ s.limits
unfolding cleanup
cleanup-limits c s = refl

cleanup_idempotency-kept :
    (d t ttl : ℕ) (result : IdempotencyResultRef) (old : IdempotencyEntry)
    → d ≤ of_unix_ms (unix_ms t) + ttl
    → cleanup_idempotency d ttl (completed t result old) ≡ some (completed t result old)
unfolding cleanup_idempotency
cleanup_idempotency-kept d t ttl result old h = ground arith

-- Where the store's maps hold each key once: a key that was just completed, and that is reserved
-- again before its entry's time is over, is given the entry that completed it, with the result
-- recorded then, and no new entry.
pub reserve_complete :
    (c t d u : ℕ) (scope : IdempotencyScope) (result : IdempotencyResultRef)
    (entry : IdempotencyEntry) (s : Store)
    → HasMaps s
    → (complete_idempotency c t scope result s).1 ≡ ok entry
    → d ≤ of_unix_ms (unix_ms t) + s.limits.replay_ttl
    → ((reserve_idempotency d u scope (complete_idempotency c t scope result s).0).1
        ≡ reserved entry true)
      × (entry.result ≡ result)
reserve_complete c t d u scope result entry s v h p =
    let (old, found, e, valid, after) = complete_idempotency-inversion c t scope result entry s h in
    (
      rw (after, e)
          (reserve_idempotency-found d u scope (completed t result old) _ valid
            (lookup-cleanup_entry d (idempotency_key scope) (completed t result old) (cleanup c s)
                (cleanup-HasMaps c s v)
              ∙ cleanup_idempotency-kept d t (cleanup c s).limits.replay_ttl result old
                  (rw (cleanup-limits c s) p))
            (find_entry-same scope (cleanup c s) old found)),
      rw e refl,
    )
