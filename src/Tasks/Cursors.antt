-- ===== src/Tasks/Cursors.antt =====
-- gateway/internal/tasks/stream.go: what `replayMessagesLocked` answers, against the task's log.
use codex_runtime.Base.{
  ℕ, true, ◌+◌, ◌≤◌, ◌<◌, keep_if, keep_if-append, false, ◌≡◌, refl, ap, sym, ◌∙◌, subst, List, [],
  ◌∷◌, ◌++◌, length, length-append, ok, arith,
}
use codex_runtime.Tasks.Events.{
  TaskEvent, notice_message, replay_cursor_evicted, Task, StreamTaskCommand, after_event_id,
  append_event_messages, later_than, is_evicted, replay_after, replay_messages,
}
use codex_runtime.Tasks.Logs.{id_limit, Consecutive, IsLog}
use codex_runtime.Tasks.Histories.{Follows, IsNew, append_all, append_all-Follows}

module _ {Payload : Type 0} where
  Consecutive-left :
      (lo : ℕ) (gone events : List (TaskEvent Payload))
      → Consecutive lo (gone ++ events)
      → Consecutive lo gone
  Consecutive-left lo [] events c = tt
  Consecutive-left lo (e ∷ gone) events c = (c.0, Consecutive-left (lo + 1) gone events c.1)

  -- No event of those up to the cursor is later than it.
  later_than-none :
      (lo after : ℕ) (gone : List (TaskEvent Payload))
      → Consecutive lo gone
      → lo + length gone ≤ after
      → later_than after gone ≡ []
  unfolding later_than keep_if
  later_than-none lo after [] c h = refl
  later_than-none lo after (e ∷ gone) c h =
      ground (arith, c.0, h, later_than-none (lo + 1) after gone c.1 (omega (arith, h)))

  later_than-end :
      (after : ℕ) (gone events : List (TaskEvent Payload))
      → Consecutive 0 (gone ++ events)
      → length gone ≤ after
      → later_than after (gone ++ events) ≡ later_than after events
  unfolding later_than
  later_than-end after gone events c h =
      keep_if-append _ gone events
      ∙ ap (λ l. l ++ later_than after events)
          (later_than-none 0 after gone (Consecutive-left 0 gone events c) (omega (arith, h)))

  is_evicted-false :
      (start after : ℕ) (events : List (TaskEvent Payload))
      → Consecutive start events
      → start < after
      → is_evicted after events ≡ false
  unfolding is_evicted
  is_evicted-false start after [] c h = refl
  is_evicted-false start after (e ∷ events) c h = ground (arith, c.0, h)

  module _ (size : TaskEvent Payload → ℕ) (max_events max_bytes : ℕ) where
    length-gone :
        (log : List (TaskEvent Payload)) (task : Task Payload)
        (v : IsLog size max_events max_bytes task) (w : Follows size log task)
        → length w.gone ≡ task.start_evicted_before_event_id
    length-gone log task v w =
        omega (arith, v.buffer.ends, w.last, ap length w.split, length-append w.gone task.events)

    later_than-log :
        (after : ℕ) (log : List (TaskEvent Payload)) (task : Task Payload)
        → IsLog size max_events max_bytes task
        → Follows size log task
        → task.start_evicted_before_event_id ≤ after
        → later_than after task.events ≡ later_than after log
    later_than-log after log task v w h = sym (
        ap (later_than after) w.split
        ∙ later_than-end after w.gone task.events (subst (Consecutive 0) w.split w.numbered)
            (omega (arith, h, length-gone log task v w)))

    replay_after-served :
        (after : ℕ) (log : List (TaskEvent Payload)) (task : Task Payload)
        → IsLog size max_events max_bytes task
        → Follows size log task
        → task.start_evicted_before_event_id < after
        → after ≤ task.next_event_id
        → replay_after after task ≡ ok (append_event_messages [] (later_than after log))
    unfolding replay_after
    replay_after-served after log task v w h k = ground (
      arith,
      is_evicted-false task.start_evicted_before_event_id after task.events v.buffer.consecutive h,
      later_than-log after log task v w (omega (arith, h)),
      k,
    )

    -- Whatever a new task has published, in fewer than 2^64 events: a subscriber whose cursor is an
    -- event after the last one evicted is sent exactly the events of the task's log after that one,
    -- in order and without a notice.
    pub replay_messages-served :
        (payloads : List (ℕ × Payload)) (task : Task Payload) (command : StreamTaskCommand)
        → length payloads < id_limit
        → IsNew size task
        → command.cursor_kind ≡ after_event_id
        → let r = append_all size max_events max_bytes payloads task in
          r.0.start_evicted_before_event_id < command.after_event_id
          → command.after_event_id ≤ r.0.next_event_id
          → replay_messages r.0 command
            ≡ ok (append_event_messages [] (later_than command.after_event_id r.1))
    unfolding replay_messages
    replay_messages-served payloads task command h n kind k l =
        let r = append_all size max_events max_bytes payloads task in
        let (v, w) = append_all-Follows size max_events max_bytes payloads task h n in
        rw kind (replay_after-served command.after_event_id r.1 r.0 v w k l)

    later_than_self :
        (lo after : ℕ) (events : List (TaskEvent Payload))
        → Consecutive lo events
        → after ≤ lo
        → later_than after events ≡ events
    unfolding later_than keep_if
    later_than_self lo after [] c h = refl
    later_than_self lo after (e ∷ events) c h =
        ground (arith, c.0, h, later_than_self (lo + 1) after events c.1 (omega (arith, h)))

    is_evicted-true :
        (start after : ℕ) (events : List (TaskEvent Payload))
        → Consecutive start events
        → after ≤ start
        → 0 < length events
        → is_evicted after events ≡ true
    unfolding is_evicted
    is_evicted-true start after [] c h k = ground arith
    is_evicted-true start after (e ∷ events) c h k = ground (arith, c.0, h)

    replay_after-noticed :
        (after : ℕ) (log : List (TaskEvent Payload)) (task : Task Payload)
        → IsLog size max_events max_bytes task
        → Follows size log task
        → after ≡ task.start_evicted_before_event_id
        → 0 < length task.events
        → replay_after after task
          ≡ ok (
              append_event_messages
                (notice_message task replay_cursor_evicted ∷ [])
                (later_than after log))
    unfolding replay_after
    replay_after-noticed after log task v w h k =
        let all =
          sym (
            later_than_self task.start_evicted_before_event_id after task.events
              v.buffer.consecutive (omega (arith, h)))
          ∙ later_than-log after log task v w (omega (arith, h)) in
        ground (
          arith,
          is_evicted-true task.start_evicted_before_event_id after task.events v.buffer.consecutive
              (omega (arith, h)) k,
          all,
          v.buffer.ends,
          h,
        )

    -- In fewer than 2^64 events of a new task, of which some are still buffered: a subscriber whose
    -- cursor is the last event evicted, or is 0 while nothing was evicted, is sent all events of the
    -- log after its cursor, and before them a notice that its cursor is no longer buffered.
    pub replay_messages-noticed :
        (payloads : List (ℕ × Payload)) (task : Task Payload) (command : StreamTaskCommand)
        → length payloads < id_limit
        → IsNew size task
        → command.cursor_kind ≡ after_event_id
        → let r = append_all size max_events max_bytes payloads task in
          command.after_event_id ≡ r.0.start_evicted_before_event_id
          → 0 < length r.0.events
          → replay_messages r.0 command
            ≡ ok (
                append_event_messages
                  (notice_message r.0 replay_cursor_evicted ∷ [])
                  (later_than command.after_event_id r.1))
    unfolding replay_messages
    replay_messages-noticed payloads task command h n kind k l =
        let r = append_all size max_events max_bytes payloads task in
        let (v, w) = append_all-Follows size max_events max_bytes payloads task h n in
        rw kind (replay_after-noticed command.after_event_id r.1 r.0 v w k l)
