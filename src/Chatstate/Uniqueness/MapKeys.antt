-- ===== src/Chatstate/Uniqueness/MapKeys.antt =====
-- gateway/internal/chatstate/store.go: the maps that `cleanupLocked` filters, and their keys.
use codex_runtime.Base.{
  ℕ, Text, List, HasKeys, HasKeys-insert, HasKeys-remove, HasKeys-refine, arith,
}
use codex_runtime.Chatstate.Types.{LimitOptions}
use codex_runtime.Chatstate.Keys.{pending_key, idempotency_key}
use codex_runtime.Chatstate.Store.{Store, cleanup, cleanup_pending, cleanup_idempotency, new_store}
use codex_runtime.Chatstate.Channels.{
  close_subscribers, publish_event, subscribe, unsubscribe, receive,
}
use codex_runtime.Chatstate.Runs.{put_run, finish_run}
use codex_runtime.Chatstate.Pending.{put_pending, new_pending}
use codex_runtime.Chatstate.Replay.{
  append_checked, store_event, replay_checked, replay_found, read_enforced,
}
use codex_runtime.Chatstate.Idempotency.{new_entry, record_diagnostic}
use codex_runtime.Chatstate.Steps.Calls.{Call, run, AnyInput, Registers-any}
use codex_runtime.Chatstate.Steps.Keeps.{Keeps, KeepsEvents}
use codex_runtime.Chatstate.Steps.Keeps.Histories.{run-keeps}

pub record HasMaps (s : Store) : Type 0 where
  pub pending : HasKeys s.pending
  pub idempotency : HasKeys s.idempotency

pub cleanup-HasMaps : (now : ℕ) (s : Store) → HasMaps s → HasMaps (cleanup now s)
unfolding cleanup
cleanup-HasMaps now s v = record {
  pending = HasKeys-refine (cleanup_pending now s.limits.pending_ttl) s.pending v.pending;
  idempotency =
      HasKeys-refine (cleanup_idempotency now s.limits.replay_ttl) s.idempotency v.idempotency;
}

HasMaps-keeps : Keeps AnyInput HasMaps
unfolding put_run finish_run close_subscribers subscribe unsubscribe receive put_pending
    record_diagnostic
HasMaps-keeps = record {
  cleaned = cleanup-HasMaps;
  run_added = λ now scope key s v p q. record { pending = v.pending; idempotency = v.idempotency };
  capacity_reserved = λ scope s v p. record { pending = v.pending; idempotency = v.idempotency };
  capacity_released = λ scope s v. record { pending = v.pending; idempotency = v.idempotency };
  reserved_run_added = λ now reservation scope key s v p q. record {
    pending = v.pending;
    idempotency = v.idempotency;
  };
  run_put = λ scope r old s v h. record { pending = v.pending; idempotency = v.idempotency };
  run_finished =
      λ now scope state r s v h. record { pending = v.pending; idempotency = v.idempotency };
  subscribed = λ scope s v. ground arith;
  unsubscribed = λ scope id s v. ground arith;
  received = λ id s v. record { pending = v.pending; idempotency = v.idempotency };
  pending_added = λ now ttl input s i v p. record {
    pending =
        HasKeys-insert (pending_key input.run_scope input.pending_request_id)
          (new_pending now ttl input) s.pending v.pending;
    idempotency = v.idempotency;
  };
  pending_put = λ scope id r old s v h g. record {
    pending = HasKeys-insert (pending_key scope id) r s.pending v.pending;
    idempotency = v.idempotency;
  };
  entry_added = λ now scope s v h p. record {
    pending = v.pending;
    idempotency =
        HasKeys-insert (idempotency_key scope) (new_entry now scope) s.idempotency v.idempotency;
  };
  entry_put = λ scope entry old s v h. record {
    pending = v.pending;
    idempotency = HasKeys-insert (idempotency_key scope) entry s.idempotency v.idempotency;
  };
  entry_removed = λ scope s v. record {
    pending = v.pending;
    idempotency = HasKeys-remove (idempotency_key scope) s.idempotency v.idempotency;
  };
  diagnostic_recorded = λ now r s v. record { pending = v.pending; idempotency = v.idempotency };
}

HasMaps-keeps_events : KeepsEvents HasMaps
unfolding append_checked store_event publish_event replay_checked replay_found read_enforced
HasMaps-keeps_events = record {
  event_appended = λ created_at enforce_at input size s v. ground arith;
  replayed = λ enforce_at cursor s v. ground arith;
}

pub run-HasMaps : (s : Store) (cs : List Call) → HasMaps s → HasMaps (run s cs)
run-HasMaps s cs v = run-keeps HasMaps-keeps HasMaps-keeps_events s cs (Registers-any cs) v

pub new_store-HasMaps :
    (fmt : ℕ → Text) (now : ℕ) (epoch : Text) (limits : LimitOptions)
    → HasMaps (new_store fmt now epoch limits)
unfolding new_store
new_store-HasMaps fmt now epoch limits = record { pending = tt; idempotency = tt }
