-- ===== src/Chatstate/Buffers/Appends.antt =====
-- gateway/internal/chatstate/store.go: how `AppendEvent` changes a buffer that follows a log.
use codex_runtime.Base.{
  ℕ, ◌+◌, ◌≤◌, ◌<◌, ◌≡◌, ◌≢◌, subst, refl, sym, List, [], ◌∷◌, ◌++◌, append-nil, All-append, lookup,
  lookup-insert, text_eq, text_eq_iff, Text, Result, ok, err, Bool-cases, Option-cases, inl, inr,
  pos, negsuc, ℤ, u64, arith,
}
use codex_runtime.Domain.{GatewayError}
use codex_runtime.Chatstate.Types.{EventInput, EventRecord}
use codex_runtime.Chatstate.Keys.{replay_key, validate_run_scope}
use codex_runtime.Chatstate.Store.{Store, cleanup}
use codex_runtime.Chatstate.Channels.{publish_event}
use codex_runtime.Chatstate.Replay.{
  append_event, append_sized, append_checked, new_event, store_event, add_event, buffer_or_new,
  enforce_replay_limits,
}
use codex_runtime.Chatstate.Buffers.Eviction.{
  IsEnd, IsEnd-trans, IsEnd-append, enforce_replay_limits-IsEnd,
}
use codex_runtime.Chatstate.Buffers.Log.{
  events_at, appended_to, Rising-append, Below-mono, id_limit, Follows, SameEvents,
  SameEvents-Follows,
}

pub cleanup-SameEvents : (now : ℕ) (s : Store) → SameEvents s (cleanup now s)
unfolding cleanup
cleanup-SameEvents now s = record { replay = refl; next = refl }

publish_event-SameEvents :
    (key : Text) (e : EventRecord) (s : Store) → SameEvents s (publish_event key e s)
unfolding publish_event
publish_event-SameEvents key e s = record { replay = refl; next = refl }

-- The run's own buffer after an event is stored.
events_at-store_event_self :
    (now : ℕ) (e : EventRecord) (key : Text) (s : Store)
    → replay_key e.run_scope ≡ key
    → events_at key (store_event now e s)
      ≡ (enforce_replay_limits s.limits now
          (add_event e (buffer_or_new (lookup key s.replay)))).events
unfolding events_at store_event
events_at-store_event_self now e key s k = ground (
  arith,
  text_eq_iff (replay_key e.run_scope) key,
  lookup-insert (replay_key e.run_scope) key
      (enforce_replay_limits s.limits now
        (add_event e (buffer_or_new (lookup (replay_key e.run_scope) s.replay))))
      s.replay,
)

store_event-IsEnd :
    (now : ℕ) (e : EventRecord) (key : Text) (s : Store)
    → replay_key e.run_scope ≡ key
    → IsEnd (events_at key s ++ (e ∷ [])) (events_at key (store_event now e s))
unfolding add_event events_at
store_event-IsEnd now e key s k =
    subst (IsEnd ((buffer_or_new (lookup key s.replay)).events ++ (e ∷ [])))
      (sym (events_at-store_event_self now e key s k))
      (enforce_replay_limits-IsEnd s.limits now (add_event e (buffer_or_new (lookup key s.replay))))

-- The buffers of other runs.
events_at-store_event_other :
    (now : ℕ) (e : EventRecord) (key : Text) (s : Store)
    → replay_key e.run_scope ≢ key
    → events_at key (store_event now e s) ≡ events_at key s
unfolding events_at store_event
events_at-store_event_other now e key s h = ground (
  arith,
  text_eq_iff (replay_key e.run_scope) key,
  lookup-insert (replay_key e.run_scope) key
      (enforce_replay_limits s.limits now
        (add_event e (buffer_or_new (lookup (replay_key e.run_scope) s.replay))))
      s.replay,
)

store_event-next :
    (now : ℕ) (e : EventRecord) (s : Store) → (store_event now e s).next_event_id ≡ e.event_id
unfolding store_event
store_event-next now e s = refl

-- Storing the next event extends the log of its run, and leaves every other log alone.
store_event-Follows :
    (now : ℕ) (e : EventRecord) (key : Text) (log : List EventRecord) (s : Store)
    → e.event_id ≡ s.next_event_id + 1
    → e.event_id < id_limit
    → Follows key log s
    → Follows key (log ++ appended_to key (ok e)) (store_event now e s)
store_event-Follows now e key log s h small v =
    elim (Bool-cases (text_eq (replay_key e.run_scope) key)) [
      | inl same ↦ rw same (record {
        rising = Rising-append 0 s.next_event_id log e (omega arith) (omega arith) v.rising v.below;
        below = rw (store_event-next now e s) (
            All-append (λ x. x.event_id ≤ e.event_id) log (e ∷ [])
              (Below-mono log (omega arith) v.below) (omega arith));
        small = rw (store_event-next now e s) small;
        kept =
            IsEnd-trans (log ++ (e ∷ [])) (events_at key s ++ (e ∷ []))
              (events_at key (store_event now e s))
              (IsEnd-append log (events_at key s) (e ∷ []) v.kept)
              (store_event-IsEnd now e key s ((text_eq_iff _ _).0 same));
      })
      | inr other ↦
          rw (other, append-nil)
            (record {
              rising = v.rising;
              below = rw (store_event-next now e s) (Below-mono log (omega arith) v.below);
              small = rw (store_event-next now e s) small;
              kept =
                  rw
                    (events_at-store_event_other now e key s
                      (λ p. ground (arith, text_eq_iff (replay_key e.run_scope) key)))
                    v.kept;
            })
    ]

append_checked-Follows :
    (created_at now : ℕ) (input : EventInput) (size : ℕ) (key : Text) (log : List EventRecord)
    (s : Store)
    → s.next_event_id + 1 < id_limit
    → Follows key log s
    → Follows key
        (log ++ appended_to key (append_checked created_at now input size s).1)
        (append_checked created_at now input size s).0
unfolding append_checked
append_checked-Follows created_at now input size key log s h v =
    let e = new_event created_at (u64 (s.next_event_id + 1)) input size s.epoch in
    SameEvents-Follows key (log ++ appended_to key (ok e)) (store_event now e s) _
      (publish_event-SameEvents (replay_key input.run_scope) e (store_event now e s))
      (unfold new_event in store_event-Follows now e key log s (omega arith) (omega arith) v)

module _ (P : Store × Result GatewayError EventRecord → Type 0) where
  append_sized_cases :
      (c t u : ℕ) (input : EventInput) (size : ℤ) (s : Store)
      → ((e : GatewayError) → P (s, err e))
      → ((n : ℕ) → P (append_checked t u input n (cleanup c s)))
      → P (append_sized c t u input size s)
  append_sized_cases c t u input (pos n) s failed done = done n
  append_sized_cases c t u input (negsuc n) s failed done = failed _

  pub append_event_cases :
      (c t u : ℕ) (input : EventInput) (s : Store)
      → ((e : GatewayError) → P (s, err e))
      → ((n : ℕ) → P (append_checked t u input n (cleanup c s)))
      → P (append_event c t u input s)
  unfolding append_event
  append_event_cases c t u input s failed done =
      elim (Option-cases (validate_run_scope input.run_scope)) [
        | inl e ↦
            rw (e, append_event) (append_sized_cases c t u input input.size_bytes s failed done)
        | inr (x, e) ↦ rw (e, append_event) (failed x)
      ]

-- An append extends the log by the event that it returns.
pub append_event-Follows :
    (c t u : ℕ) (input : EventInput) (key : Text) (log : List EventRecord) (s : Store)
    → s.next_event_id + 1 < id_limit
    → Follows key log s
    → Follows key
        (log ++ appended_to key (append_event c t u input s).1)
        (append_event c t u input s).0
append_event-Follows c t u input key log s h v =
    append_event_cases (λ r. Follows key (log ++ appended_to key r.1) r.0) c t u input s
      (λ e. rw append-nil v)
      (λ n.
        append_checked-Follows t u input n key log (cleanup c s) (unfold cleanup in h)
          (SameEvents-Follows key log s (cleanup c s) (cleanup-SameEvents c s) v))

append_checked-next :
    (t u : ℕ) (input : EventInput) (n : ℕ) (s : Store)
    → (append_checked t u input n s).0.next_event_id ≤ s.next_event_id + 1
unfolding append_checked store_event publish_event new_event
append_checked-next t u input n s = omega arith

pub append_event-next :
    (c t u : ℕ) (input : EventInput) (s : Store)
    → (append_event c t u input s).0.next_event_id ≤ s.next_event_id + 1
append_event-next c t u input s =
    append_event_cases (λ r. r.0.next_event_id ≤ s.next_event_id + 1) c t u input s
      (λ e. omega arith) (λ n. unfold cleanup in append_checked-next t u input n (cleanup c s))
