-- ===== src/Chatruntime/Refusals.antt =====
-- gateway/internal/chatruntime/stream.go: a stream that is refused after it subscribed.
use codex_runtime.Base.{
  ℕ, ◌≡◌, refl, Text, text_eq, text_eq_iff, false, List, [], ◌∷◌, lookup, Map, arith, if◌then◌else◌,
  lookup-insert, lookup-remove, insert, lookup-insert_self, Option-cases, Result, ok, err, inl, inr,
  u64, ◌+◌, Option, Bool, none, some, true, if-cases, ◌&&◌, is_some, ◌∙◌,
}
use codex_runtime.Domain.{GatewayError}
use codex_runtime.Domain.Chats.{StreamChatEventsCommand}
use codex_runtime.Chatruntime.Messages.{CursorCodec}
use codex_runtime.Chatruntime.Streams.{ChatEventStream}
use codex_runtime.Chatruntime.Starts.{Start, cursor_of, chat_of, run_of}
use codex_runtime.Chatruntime.Opening.{replay_messages, replay_into, open_run, leave, with_live}
use codex_runtime.Chatstate.Types.{Cursor, RunScope, RunRecord}
use codex_runtime.Chatstate.Keys.{validate_run_scope, replay_key, active_run_key}
use codex_runtime.Chatstate.Store.{Store, cleanup}
use codex_runtime.Chatstate.Replay.{replay, replay_checked, replay_found, read_enforced}
use codex_runtime.Chatstate.Channels.{
  subscribe, is_live, unsubscribe, put_ids, ids_of, contains, without,
}

replay-subscribers :
    (c u : ℕ) (cursor : Cursor) (s : Store) → (replay c u cursor s).0.subscribers ≡ s.subscribers
unfolding replay replay_checked replay_found read_enforced cleanup
replay-subscribers c u cursor s = ground arith

without-absent : (id : ℕ) (ids : List ℕ) → contains id ids ≡ false → without id ids ≡ ids
without-absent id [] h = refl
without-absent id (j ∷ ids) h = ground (arith, without-absent id ids)

ids-put :
    (key k : Text) (ids : List ℕ) (m : Map (List ℕ))
    → ids_of (lookup k (put_ids key ids m)) ≡ (if text_eq key k then ids else ids_of (lookup k m))
unfolding put_ids
ids-put key k [] m = ground (arith, lookup-remove key k m)
ids-put key k (id ∷ ids) m = ground (arith, lookup-insert key k (id ∷ ids) m)

-- The subscriber ids under each key.
pub record SameSubscribers (s t : Store) : Type 0 where
  pub at_key : (k : Text) → ids_of (lookup k t.subscribers) ≡ ids_of (lookup k s.subscribers)

leave-subscribed :
    (scope : RunScope) (id : ℕ) (s t : Store)
    → contains id (ids_of (lookup (replay_key scope) s.subscribers)) ≡ false
    → t.subscribers
      ≡ insert
          (replay_key scope)
          (id ∷ ids_of (lookup (replay_key scope) s.subscribers))
          s.subscribers
    → SameSubscribers s (unsubscribe scope id t)
unfolding unsubscribe
leave-subscribed scope id s t new h =
    let key = replay_key scope in
    let old = ids_of (lookup key s.subscribers) in
    record {
      at_key = λ k. ground (
        arith,
        h,
        without-absent id old new,
        lookup-insert key k (id ∷ old) s.subscribers,
        lookup-insert_self key (id ∷ old) s.subscribers,
        ids-put key k old (insert key (id ∷ old) s.subscribers),
        text_eq_iff key k,
      );
    }

-- What Subscribe does to the subscribers, with what it returns.
abbrev AddsId : RunScope → Store → Store → Option ℕ → Type 0
AddsId scope s t none = t.subscribers ≡ s.subscribers
AddsId scope s t (some id) =
    (id ≡ u64 (s.next_subscriber_id + 1))
    × (t.subscribers
        ≡ insert (replay_key scope) (id ∷ ids_of (lookup (replay_key scope) s.subscribers))
            s.subscribers)

abbrev Changes : RunScope → Store → Store → Result GatewayError (Option ℕ) → Type 0
Changes scope s t (err e) = t.subscribers ≡ s.subscribers
Changes scope s t (ok live) = AddsId scope s t live

-- What Subscribe does to the subscribers, with what it returns.
record Subscribed (scope : RunScope) (s : Store) (x : Store × Result GatewayError (Option ℕ))
    : Type 0 where
  changes : Changes scope s x.0 x.1

subscribe-Subscribed : (scope : RunScope) (s : Store) → Subscribed scope s (subscribe scope s)
unfolding subscribe
subscribe-Subscribed scope s = elim (Option-cases (validate_run_scope scope)) [
  | inr (e, p) ↦ rw (p, subscribe) (record { changes = refl })
  | inl p ↦
      rw (p, subscribe)
        (if-cases (Subscribed scope s)
          (is_live scope (lookup (active_run_key scope.scope) s.active_runs)) _ _
          (λ q. record { changes = (refl, refl) }) (λ q. record { changes = refl }))
]

same_subscribers : (s t : Store) → t.subscribers ≡ s.subscribers → SameSubscribers s t
same_subscribers s t h = record { at_key = λ k. rw h refl }

-- Whether an error is returned.
abbrev pub is_refused : {A : Type 0} → Result GatewayError A → Bool
is_refused (ok a) = false
is_refused (err e) = true

module _ (codec : CursorCodec) where
  refused-SameSubscribers :
      (c u : ℕ) (command : StreamChatEventsCommand) (start : Start) (scope : RunScope) (s t : Store)
      (live : Option ℕ)
      → ((r : Store) → r.subscribers ≡ t.subscribers → SameSubscribers s (leave scope live r))
      → is_refused (replay_into codec c u command start scope live t).1 ≡ true
      → SameSubscribers s (replay_into codec c u command start scope live t).0
  unfolding replay_into
  refused-SameSubscribers c u command start scope s t live left h =
      let result = replay c u (cursor_of command start) t in
      elim (Option-cases
        (replay_messages codec command start.after_event_id result.0.epoch result.1)) [
          | inl p ↦ rw p (left result.0 (replay-subscribers c u (cursor_of command start) t))
          | inr (ms, p) ↦ absurd (ground (arith, p, h))
        ]

  with_live-refused :
      (c u : ℕ) (command : StreamChatEventsCommand) (start : Start) (scope : RunScope) (s t : Store)
      (live : Result GatewayError (Option ℕ))
      → Changes scope s t live
      → contains (u64 (s.next_subscriber_id + 1)) (ids_of (lookup (replay_key scope) s.subscribers))
        ≡ false
      → is_refused (with_live codec c u command start scope t live).1 ≡ true
      → SameSubscribers s (with_live codec c u command start scope t live).0
  with_live-refused c u command start scope s t (err e) same new h = same_subscribers s t same
  with_live-refused c u command start scope s t (ok none) same new h =
      refused-SameSubscribers c u command start scope s t none
        (λ r left. same_subscribers s r (left ∙ same)) h
  with_live-refused c u command start scope s t (ok (some id)) same new h =
      refused-SameSubscribers c u command start scope s t (some id)
        (λ r left. leave-subscribed scope id s r (ground (arith, same.0, new)) (left ∙ same.1)) h

  -- A stream that is refused, once its run is known, leaves every run with the subscribers that it had:
  -- a subscription that was made before the replay found the cursor out of range is undone. The id of
  -- the next subscriber is not one of the run's subscribers yet.
  pub open_run-refused :
      (c u : ℕ) (command : StreamChatEventsCommand) (start : Start) (active : Option RunRecord)
      (s : Store)
      → contains (u64 (s.next_subscriber_id + 1)) (
          ids_of (
            lookup
              (replay_key (record { scope = chat_of command; run_id = start.run_id }))
              s.subscribers))
        ≡ false
      → is_refused (open_run codec c u command start active s).1 ≡ true
      → SameSubscribers s (open_run codec c u command start active s).0
  unfolding open_run
  open_run-refused c u command start active s new =
      let scope : RunScope = record { scope = chat_of command; run_id = start.run_id } in
      if-cases
        (λ (x : Store × Result GatewayError ChatEventStream).
          is_refused x.1 ≡ true → SameSubscribers s x.0)
        (is_some active && text_eq (run_of active) start.run_id) _ _
        (λ p.
          with_live-refused c u command start scope s (subscribe scope s).0 (subscribe scope s).1
            (subscribe-Subscribed scope s).changes new)
        (λ p.
          refused-SameSubscribers c u command start scope s s none
            (λ r left. same_subscribers s r left))
