-- ===== src/Tasks/Delivery.antt =====
-- gateway/internal/tasks/stream.go: what reaches a subscriber of what is sent to it.
use codex_runtime.Base.{
  ◌≤◌, ◌⊎◌, true, false, ◌≡◌, refl, ◌∙◌, Option, none, some, List, [], ◌∷◌, ◌++◌, append_assoc,
  append-nil, length, length-append, Bool-cases, ltb, if◌then◌else◌, inl, inr, arith,
}
use codex_runtime.Chatstate.Store.{open_channel, closed_channel}
use codex_runtime.Tasks.Subscribers.{
  next_of, TaskSubscriber, new_subscriber, close_channel, enqueue, send_event, close_subscriber,
  receive_event,
}

pub data Action (Event : Type 0) : Type 0 where
  sends : Event → Action Event
  closes receives : Action Event

-- The subscriber with what was sent to it so far, what it accepted and what was received.
pub record Delivery (Event : Type 0) : Type 0 where
  pub subscriber : TaskSubscriber Event
  pub sent : List Event
  pub accepted : List Event
  pub received : List Event

module _ {Event : Type 0} where
  abbrev pub new_delivery : Delivery Event
  new_delivery = record { subscriber = new_subscriber; sent = []; accepted = []; received = [] }

  abbrev with_event : List Event → Option Event → List Event
  with_event events none = events
  with_event events (some e) = events ++ (e ∷ [])

  unfoldable pub act : Delivery Event → Action Event → Delivery Event
  act d (sends e) =
      let (s, taken) = send_event e d.subscriber in
      record d {
        subscriber = s;
        sent = d.sent ++ (e ∷ []);
        accepted = if taken then d.accepted ++ (e ∷ []) else d.accepted;
      }
  act d closes = record d { subscriber = close_subscriber d.subscriber }
  act d receives =
      let (s, event) = receive_event d.subscriber in
      record d { subscriber = s; received = with_event d.received event }

  unfoldable pub act_all : Delivery Event → List (Action Event) → Delivery Event
  act_all d [] = d
  act_all d (a ∷ actions) = act_all (act d a) actions

  pub record IsGapless (d : Delivery Event) : Type 0 where
    pub status :
        d.subscriber.status ≡ (if d.subscriber.closed then closed_channel else open_channel)
    pub bounded : length d.subscriber.queue ≤ 256
    pub delivered : d.received ++ d.subscriber.queue ≡ d.accepted
    pub missed : List Event
    pub front : d.sent ≡ d.accepted ++ missed
    pub none_missed : (d.subscriber.closed ≡ true) ⊎ (missed ≡ [])

  -- A queue with room takes the event.
  taken-IsGapless :
      (d : Delivery Event) (e : Event)
      → IsGapless d
      → d.subscriber.closed ≡ false
      → ltb (length d.subscriber.queue) 256 ≡ true
      → IsGapless (act d (sends e))
  unfolding act send_event enqueue
  taken-IsGapless d e v p q =
      let room : length d.subscriber.queue ≤ 255 = ground (arith, q) in
      record {
        status = ground (arith, v.status, p, q);
        bounded = ground (arith, v.status, p, q, room, length-append d.subscriber.queue (e ∷ []));
        delivered = ground (
          arith,
          v.status,
          p,
          q,
          v.delivered,
          append_assoc d.received d.subscriber.queue (e ∷ []),
        );
        missed = [];
        front = ground (
          arith,
          v.front,
          v.none_missed,
          p,
          q,
          append-nil d.accepted,
          append-nil (d.accepted ++ (e ∷ [])),
        );
        none_missed = inr refl;
      }

  refused-IsGapless :
      (d : Delivery Event) (e : Event)
      → IsGapless d
      → (d.subscriber.closed ≡ true) ⊎ (ltb (length d.subscriber.queue) 256 ≡ false)
      → IsGapless (act d (sends e))
  unfolding act send_event close_channel
  refused-IsGapless d e v p = record {
    status = ground (arith, v.status, p);
    bounded = ground (arith, v.status, v.bounded, p);
    delivered = ground (arith, v.status, v.delivered, p);
    missed = v.missed ++ (e ∷ []);
    front = ground (arith, v.front, p, append_assoc d.accepted v.missed (e ∷ []));
    none_missed = ground (arith, p);
  }

  closed-IsGapless : (d : Delivery Event) → IsGapless d → IsGapless (act d closes)
  unfolding act close_subscriber close_channel
  closed-IsGapless d v = record {
    status = ground (arith, v.status);
    bounded = ground (arith, v.bounded);
    delivered = ground (arith, v.delivered);
    missed = v.missed;
    front = v.front;
    none_missed = ground (arith, v.none_missed);
  }

  received-queue :
      (received queue : List Event)
      → with_event received (next_of queue).0 ++ (next_of queue).1 ≡ received ++ queue
  received-queue received [] = refl
  received-queue received (e ∷ queue) = append_assoc received (e ∷ []) queue

  received-IsGapless : (d : Delivery Event) → IsGapless d → IsGapless (act d receives)
  unfolding act receive_event
  received-IsGapless d v = record {
    status = ground (arith, v.status);
    bounded = ground (arith, v.bounded);
    delivered = received-queue d.received d.subscriber.queue ∙ v.delivered;
    missed = v.missed;
    front = ground (arith, v.front);
    none_missed = ground (arith, v.none_missed);
  }

  act-IsGapless : (a : Action Event) (d : Delivery Event) → IsGapless d → IsGapless (act d a)
  act-IsGapless (sends e) d v = elim (Bool-cases d.subscriber.closed) [
    | inl p ↦ refused-IsGapless d e v (inl p)
    | inr p ↦ elim (Bool-cases (ltb (length d.subscriber.queue) 256)) [
      | inl q ↦ taken-IsGapless d e v p q
      | inr q ↦ refused-IsGapless d e v (inr q)
    ]
  ]
  act-IsGapless closes d v = closed-IsGapless d v
  act-IsGapless receives d v = received-IsGapless d v

  act_all-IsGapless_from :
      (actions : List (Action Event)) (d : Delivery Event)
      → IsGapless d
      → IsGapless (act_all d actions)
  unfolding act_all
  act_all-IsGapless_from [] d v = v
  act_all-IsGapless_from (a ∷ actions) d v =
      act_all-IsGapless_from actions (act d a) (act-IsGapless a d v)

  -- Whatever is sent to a new subscriber, however it is received, and however often it is closed,
  -- in any order: no operation on its channel panics, the queue holds at most 256 events, what was
  -- received followed by the queue is what was accepted, and that is the front of what was sent,
  -- all of it while the subscriber is not closed.
  pub act_all-IsGapless : (actions : List (Action Event)) → IsGapless (act_all new_delivery actions)
  act_all-IsGapless actions = act_all-IsGapless_from actions new_delivery (record {
    status = refl;
    bounded = omega arith;
    delivered = refl;
    missed = [];
    front = refl;
    none_missed = inr refl;
  })
