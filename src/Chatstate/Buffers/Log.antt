-- ===== src/Chatstate/Buffers/Log.antt =====
-- The events of one run as a log that never forgets, and the buffer as the end of that log.
use codex_runtime.Base.{
  ℕ, ◌≤◌, ◌<◌, ◌≡◌, List, [], ◌∷◌, ◌++◌, All, lookup, text_eq, Text, Result, ok, err, if◌then◌else◌,
  arith,
}
use codex_runtime.Domain.{GatewayError}
use codex_runtime.Chatstate.Types.{EventRecord}
use codex_runtime.Chatstate.Keys.{replay_key}
use codex_runtime.Chatstate.Store.{Store, cleanup}
use codex_runtime.Chatstate.Channels.{close_subscribers, subscribe, unsubscribe, receive}
use codex_runtime.Chatstate.Runs.{put_run, finish_run}
use codex_runtime.Chatstate.Pending.{put_pending}
use codex_runtime.Chatstate.Replay.{append_event, buffer_or_new}
use codex_runtime.Chatstate.Idempotency.{record_diagnostic}
use codex_runtime.Chatstate.Steps.Calls.{Call, appends_event, step, AnyInput}
use codex_runtime.Chatstate.Steps.Keeps.{Keeps}
use codex_runtime.Chatstate.Buffers.Eviction.{IsEnd}

-- The event that an append of it returned, if it belongs to the run of the key.
abbrev pub appended_to : Text → Result GatewayError EventRecord → List EventRecord
appended_to key (ok e) = if text_eq (replay_key e.run_scope) key then e ∷ [] else []
appended_to key (err _) = []

abbrev pub logged_by : Text → Store → Call → List EventRecord
logged_by key s (appends_event c t u input) = appended_to key (append_event c t u input s).1
logged_by key s _ = []

-- Every event that a history appended to the run of the key, in order.
unfoldable pub logged : Text → Store → List Call → List EventRecord
logged key s [] = []
logged key s (c ∷ cs) = logged_by key s c ++ logged key (step s c) cs

-- The events that the run's buffer holds.
unfoldable pub events_at : Text → Store → List EventRecord
events_at key s = (buffer_or_new (lookup key s.replay)).events

-- Event ids rise, from above a bound.
abbrev pub Rising : ℕ → List EventRecord → Type 0
Rising n [] = Unit
Rising n (e ∷ es) = (n < e.event_id) × Rising e.event_id es

abbrev pub Below : ℕ → List EventRecord → Type 0
Below n = All λ e. e.event_id ≤ n

pub Below-mono : {m n : ℕ} (es : List EventRecord) → m ≤ n → Below m es → Below n es
Below-mono [] h b = tt
Below-mono (e ∷ es) h b = (omega arith, Below-mono es h b.1)

pub Rising-append :
    (lo n : ℕ) (es : List EventRecord) (e : EventRecord)
    → lo ≤ n
    → n < e.event_id
    → Rising lo es
    → Below n es
    → Rising lo (es ++ (e ∷ []))
Rising-append lo n [] e h k r b = (omega arith, tt)
Rising-append lo n (x ∷ es) e h k r b = (r.0, Rising-append x.event_id n es e b.0 k r.1 b.1)

abbrev pub id_limit : ℕ
id_limit = 18446744073709551616

-- The buffer of the run is the end of the log, whose ids rise to at most the last one given out.
pub record Follows (key : Text) (log : List EventRecord) (s : Store) : Type 0 where
  pub rising : Rising 0 log
  pub below : Below s.next_event_id log
  pub small : s.next_event_id < id_limit
  pub kept : IsEnd log (events_at key s)

-- The part of a store that replay depends on is as it was.
pub record SameEvents (s t : Store) : Type 0 where
  pub replay : t.replay ≡ s.replay
  pub next : t.next_event_id ≡ s.next_event_id

pub SameEvents-keeps : (s : Store) → Keeps AnyInput (SameEvents s)
unfolding cleanup put_run finish_run close_subscribers subscribe unsubscribe receive put_pending
    record_diagnostic
SameEvents-keeps s₀ = record {
  cleaned = λ now s v. record { replay = v.replay; next = v.next };
  run_added = λ now scope key s v p q. record { replay = v.replay; next = v.next };
  capacity_reserved = λ scope s v p. record { replay = v.replay; next = v.next };
  capacity_released = λ scope s v. record { replay = v.replay; next = v.next };
  reserved_run_added =
      λ now reservation scope key s v p q. record { replay = v.replay; next = v.next };
  run_put = λ scope r old s v h. record { replay = v.replay; next = v.next };
  run_finished = λ now scope state r s v h. record { replay = v.replay; next = v.next };
  subscribed = λ scope s v. ground arith;
  unsubscribed = λ scope id s v. ground arith;
  received = λ id s v. record { replay = v.replay; next = v.next };
  pending_added = λ now ttl input s i v p. record { replay = v.replay; next = v.next };
  pending_put = λ scope id r old s v h g. record { replay = v.replay; next = v.next };
  entry_added = λ now scope s v h p. record { replay = v.replay; next = v.next };
  entry_put = λ scope entry old s v h. record { replay = v.replay; next = v.next };
  entry_removed = λ scope s v. record { replay = v.replay; next = v.next };
  diagnostic_recorded = λ now r s v. record { replay = v.replay; next = v.next };
}

pub SameEvents-Follows :
    (key : Text) (log : List EventRecord) (s t : Store)
    → SameEvents s t
    → Follows key log s
    → Follows key log t
unfolding events_at
SameEvents-Follows key log s t same v = record {
  rising = v.rising;
  below = rw (same.next) v.below;
  small = rw (same.next) v.small;
  kept = rw (same.replay) v.kept;
}
