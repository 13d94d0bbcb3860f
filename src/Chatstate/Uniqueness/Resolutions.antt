-- ===== src/Chatstate/Uniqueness/Resolutions.antt =====
-- gateway/internal/chatstate/store.go: a pending request once `ResolvePending` has resolved it.
use codex_runtime.Base.{
  ℕ, Text, ◌≡◌, ◌≢◌, refl, true, false, Bool, Option, none, some, List, All, lookup, lookup-insert,
  lookup-refine, text_eq_iff, text_eq_refl, not, and_then, HasKeys, HasKeys-insert, HasKeys-refine,
  arith,
}
use codex_runtime.Chatstate.Types.{LimitOptions, RunScope, PendingInput, PendingRecord, resolved}
use codex_runtime.Chatstate.Keys.{pending_key, is_open}
use codex_runtime.Chatstate.Store.{
  Store, cleanup, cleanup_pending, expire_pending, new_store, unix_ms,
}
use codex_runtime.Chatstate.Channels.{
  close_subscribers, publish_event, subscribe, unsubscribe, receive,
}
use codex_runtime.Chatstate.Runs.{put_run, finish_run}
use codex_runtime.Chatstate.Pending.{
  put_pending, new_pending, find_pending, granted, claim_pending_resolution, claim_found,
  resolve_pending, resolve_found,
}
use codex_runtime.Chatstate.Replay.{
  append_checked, store_event, replay_checked, replay_found, read_enforced,
}
use codex_runtime.Chatstate.Idempotency.{record_diagnostic}
use codex_runtime.Chatstate.Steps.Calls.{Call, run, Registers}
use codex_runtime.Chatstate.Steps.Keeps.{Keeps, KeepsEvents}
use codex_runtime.Chatstate.Steps.Keeps.Histories.{run-keeps}
use codex_runtime.Chatstate.Uniqueness.MapKeys.{
  HasMaps, cleanup-HasMaps, run-HasMaps, new_store-HasMaps,
}

-- The request is gone, or is neither active nor claimed.
abbrev pub is_closed : Option PendingRecord → Bool
is_closed none = true
is_closed (some r) = not (is_open r.status)

pub record IsClosed (scope : RunScope) (id : Text) (s : Store) : Type 0 where
  pub keys : HasKeys s.pending
  pub closed : is_closed (lookup (pending_key scope id) s.pending) ≡ true

-- Inputs that would register another request.
abbrev pub Other : RunScope → Text → PendingInput → Type 0
Other scope id input = pending_key input.run_scope input.pending_request_id ≢ pending_key scope id

module _ (scope : RunScope) (id : Text) where
  cleanup_pending-closed :
      (now ttl : ℕ) (o : Option PendingRecord)
      → is_closed o ≡ true
      → is_closed (and_then o (cleanup_pending now ttl)) ≡ true
  unfolding cleanup_pending expire_pending
  cleanup_pending-closed now ttl none h = refl
  cleanup_pending-closed now ttl (some r) h = ground arith

  cleanup-IsClosed : (now : ℕ) (s : Store) → IsClosed scope id s → IsClosed scope id (cleanup now s)
  unfolding cleanup
  cleanup-IsClosed now s v = record {
    keys = HasKeys-refine (cleanup_pending now s.limits.pending_ttl) s.pending v.keys;
    closed =
        rw
          (lookup-refine (cleanup_pending now s.limits.pending_ttl) (pending_key scope id) s.pending
            v.keys)
          (cleanup_pending-closed now s.limits.pending_ttl (lookup (pending_key scope id) s.pending)
            v.closed);
  }

  IsClosed-keeps : Keeps (Other scope id) (IsClosed scope id)
  unfolding put_run finish_run close_subscribers subscribe unsubscribe receive put_pending
      find_pending record_diagnostic
  IsClosed-keeps = record {
    cleaned = cleanup-IsClosed;
    run_added = λ now scope' key s v p q. record { keys = v.keys; closed = v.closed };
    capacity_reserved = λ scope' s v p. record { keys = v.keys; closed = v.closed };
    capacity_released = λ scope' s v. record { keys = v.keys; closed = v.closed };
    reserved_run_added =
        λ now reservation scope' key s v p q. record { keys = v.keys; closed = v.closed };
    run_put = λ scope' r old s v h. record { keys = v.keys; closed = v.closed };
    run_finished = λ now scope' state r s v h. record { keys = v.keys; closed = v.closed };
    subscribed = λ scope' s v. ground arith;
    unsubscribed = λ scope' id' s v. ground arith;
    received = λ id' s v. record { keys = v.keys; closed = v.closed };
    pending_added = λ now ttl input s i v p. record {
      keys =
          HasKeys-insert (pending_key input.run_scope input.pending_request_id)
            (new_pending now ttl input) s.pending v.keys;
      closed = ground (
        arith,
        v.closed,
        i,
        text_eq_iff (pending_key input.run_scope input.pending_request_id) (pending_key scope id),
        lookup-insert (pending_key input.run_scope input.pending_request_id) (pending_key scope id)
            (new_pending now ttl input) s.pending,
      );
    };
    pending_put = λ scope' id' r old s v h g. record {
      keys = HasKeys-insert (pending_key scope' id') r s.pending v.keys;
      closed = ground (
        arith,
        v.closed,
        text_eq_iff (pending_key scope' id') (pending_key scope id),
        lookup-insert (pending_key scope' id') (pending_key scope id) r s.pending,
      );
    };
    entry_added = λ now scope' s v h p. record { keys = v.keys; closed = v.closed };
    entry_put = λ scope' entry old s v h. record { keys = v.keys; closed = v.closed };
    entry_removed = λ scope' s v. record { keys = v.keys; closed = v.closed };
    diagnostic_recorded = λ now r s v. record { keys = v.keys; closed = v.closed };
  }

  IsClosed-keeps_events : KeepsEvents (IsClosed scope id)
  unfolding append_checked store_event publish_event replay_checked replay_found read_enforced
  IsClosed-keeps_events = record {
    event_appended = λ created_at enforce_at input size s v. ground arith;
    replayed = λ enforce_at cursor s v. ground arith;
  }

  -- A closed request is neither resolved nor claimed.
  resolve_pending-IsClosed :
      (c t : ℕ) (r : PendingRecord) (s : Store)
      → IsClosed scope id s
      → (resolve_pending c t scope id s).1 ≢ granted r
  unfolding resolve_pending find_pending resolve_found
  resolve_pending-IsClosed c t r s v h = ground (arith, (cleanup-IsClosed c s v).closed)

  claim_pending_resolution-IsClosed :
      (c t : ℕ) (r : PendingRecord) (s : Store)
      → IsClosed scope id s
      → (claim_pending_resolution c t scope id s).1 ≢ granted r
  unfolding claim_pending_resolution find_pending claim_found
  claim_pending_resolution-IsClosed c t r s v h = ground (arith, (cleanup-IsClosed c s v).closed)

  put_pending-IsClosed :
      (r : PendingRecord) (s : Store)
      → HasKeys s.pending
      → is_open r.status ≡ false
      → IsClosed scope id (put_pending scope id r s)
  unfolding put_pending
  put_pending-IsClosed r s v h = record {
    keys = HasKeys-insert (pending_key scope id) r s.pending v;
    closed = ground (
      arith,
      text_eq_refl (pending_key scope id),
      lookup-insert (pending_key scope id) (pending_key scope id) r s.pending,
    );
  }

  resolve_found_closes :
      (t : ℕ) (r old : PendingRecord) (s : Store)
      → HasKeys s.pending
      → (resolve_found t scope id old s).1 ≡ granted r
      → IsClosed scope id (resolve_found t scope id old s).0
  unfolding resolve_found
  resolve_found_closes t r old s v h = ground (
    arith,
    put_pending-IsClosed (record old { status = resolved; resolved_at_unix_ms = unix_ms t }) s v,
  )

  resolve_pending_closes :
      (c t : ℕ) (r : PendingRecord) (s : Store)
      → HasMaps s
      → (resolve_pending c t scope id s).1 ≡ granted r
      → IsClosed scope id (resolve_pending c t scope id s).0
  unfolding resolve_pending
  resolve_pending_closes c t r s v h =
      grind (arith, (cleanup-HasMaps c s v).pending, resolve_found_closes t r)

-- Once a request has been resolved, after any calls of a new store, no later call resolves or
-- claims it again: not after any further calls, as long as none registers a request of that key.
pub resolve_once :
    (fmt : ℕ → Text) (now : ℕ) (epoch : Text) (limits : LimitOptions) (before after : List Call)
    (scope : RunScope) (id : Text) (c t d u : ℕ) (r x : PendingRecord)
    → (resolve_pending c t scope id (run (new_store fmt now epoch limits) before)).1 ≡ granted r
    → All (Registers (Other scope id)) after
    → let s = run (new_store fmt now epoch limits) before in
      let s' = run (resolve_pending c t scope id s).0 after in
      ((resolve_pending d u scope id s').1 ≢ granted x)
      × ((claim_pending_resolution d u scope id s').1 ≢ granted x)
resolve_once fmt now epoch limits before after scope id c t d u r x h others =
    let s = run (new_store fmt now epoch limits) before in
    let v =
      run-HasMaps (new_store fmt now epoch limits) before
        (new_store-HasMaps fmt now epoch limits) in
    let closed =
      run-keeps (IsClosed-keeps scope id) (IsClosed-keeps_events scope id)
        (resolve_pending c t scope id s).0 after others
        (resolve_pending_closes scope id c t r s v h) in
    (
      resolve_pending-IsClosed scope id d u x (run (resolve_pending c t scope id s).0 after) closed,
      claim_pending_resolution-IsClosed scope id d u x
          (run (resolve_pending c t scope id s).0 after) closed,
    )
