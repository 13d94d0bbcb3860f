-- ===== src/Tasks/Histories.antt =====
-- gateway/internal/tasks/stream.go: events appended one after the other, and the log of a task.
use codex_runtime.Base.{
  ℕ, append_assoc, append-nil, ◌+◌, ◌-◌, ◌<◌, u64, ◌≡◌, refl, ap, sym, ◌∙◌, subst, List, [], ◌∷◌,
  ◌++◌, length, length-append, Bool-cases, inl, inr, arith,
}
use codex_runtime.Tasks.Events.{
  TaskEvent, Task, enforce_from, enforce_replay_limits, append_event, event_of,
}
use codex_runtime.Tasks.Logs.{
  id_limit, Consecutive, Consecutive-append, exceeds, IsLog, append_event-IsLog,
}

module _ {Payload : Type 0} where
  module _ (size : TaskEvent Payload → ℕ) where
    -- Events appended one after the other, at the times given, and the task's log: the events that
    -- appendEventLocked returns.
    unfoldable pub append_all :
        ℕ → ℕ → List (ℕ × Payload) → Task Payload → Task Payload × List (TaskEvent Payload)
    append_all max_events max_bytes [] task = (task, [])
    append_all max_events max_bytes ((now, payload) ∷ payloads) task =
        let (task', event) = append_event size max_events max_bytes now payload task in
        let (task'', log) = append_all max_events max_bytes payloads task' in (task'', event ∷ log)

    enforce_from-end :
        (max_events max_bytes : ℕ) (events : List (TaskEvent Payload)) (bytes start : ℕ)
        → (gone : List (TaskEvent Payload)) × (events
            ≡ gone ++ (enforce_from size max_events max_bytes events bytes start).0)
    unfolding enforce_from
    enforce_from-end max_events max_bytes [] bytes start = ([], refl)
    enforce_from-end max_events max_bytes (e ∷ events) bytes start =
        let (gone, p) = enforce_from-end max_events max_bytes events (bytes - size e) e.event_id in
        elim (Bool-cases (exceeds max_events max_bytes (length (e ∷ events)) bytes)) [
          | inl q ↦ rw q (e ∷ gone, ap (λ l. e ∷ l) p)
          | inr q ↦ rw q ([], refl)
        ]

    -- The log has the ids from 1 on, and its end is the buffer.
    pub record Follows (log : List (TaskEvent Payload)) (task : Task Payload) : Type 0 where
      pub numbered : Consecutive 0 log
      pub last : length log ≡ task.next_event_id
      pub gone : List (TaskEvent Payload)
      pub split : log ≡ gone ++ task.events

    append_event-Follows :
        (max_events max_bytes now : ℕ) (payload : Payload) (log : List (TaskEvent Payload))
        (task : Task Payload)
        → task.next_event_id + 1 < id_limit
        → Follows log task
        → let r = append_event size max_events max_bytes now payload task in
          Follows (log ++ (r.1 ∷ [])) r.0
    unfolding append_event enforce_replay_limits
    append_event-Follows max_events max_bytes now payload log task h v =
        let e = event_of now task payload in
        let next : u64 (task.next_event_id + 1) ≡ task.next_event_id + 1 = omega (arith, h) in
        let (gone, p) =
          enforce_from-end max_events max_bytes (task.events ++ (e ∷ []))
            (task.retained_event_bytes + size e) task.start_evicted_before_event_id in
        record {
          numbered = Consecutive-append 0 log e v.numbered (omega (arith, next, v.last));
          last = omega (arith, next, v.last, length-append log (e ∷ []));
          gone = v.gone ++ gone;
          split =
              ap (λ l. l ++ (e ∷ [])) v.split
              ∙ append_assoc v.gone task.events (e ∷ [])
              ∙ ap (λ l. v.gone ++ l) p
              ∙ sym (append_assoc v.gone gone _);
        }

    append_event-next :
        (max_events max_bytes now : ℕ) (payload : Payload) (task : Task Payload)
        → task.next_event_id + 1 < id_limit
        → (append_event size max_events max_bytes now payload task).0.next_event_id
          ≡ task.next_event_id + 1
    unfolding append_event enforce_replay_limits
    append_event-next max_events max_bytes now payload task h = omega (arith, h)

    append_all-Follows_from :
        (max_events max_bytes : ℕ) (payloads : List (ℕ × Payload)) (log : List (TaskEvent Payload))
        (task : Task Payload)
        → task.next_event_id + length payloads < id_limit
        → IsLog size max_events max_bytes task
        → Follows log task
        → let r = append_all max_events max_bytes payloads task in
          IsLog size max_events max_bytes r.0 × Follows (log ++ r.1) r.0
    unfolding append_all
    append_all-Follows_from max_events max_bytes [] log task h v w =
        (v, subst (λ l. Follows l task) (sym (append-nil log)) w)
    append_all-Follows_from max_events max_bytes ((now, payload) ∷ payloads) log task h v w =
        let r = append_event size max_events max_bytes now payload task in
        let small : task.next_event_id + 1 < id_limit = omega (arith, h) in
        let (v', w') =
          append_all-Follows_from max_events max_bytes payloads (log ++ (r.1 ∷ [])) r.0
            (omega (arith, h, append_event-next max_events max_bytes now payload task small))
            (append_event-IsLog size max_events max_bytes now payload task small v)
            (append_event-Follows max_events max_bytes now payload log task small w) in
        (
          v',
          subst (λ l. Follows l (append_all max_events max_bytes payloads r.0).0)
              (append_assoc log (r.1 ∷ []) (append_all max_events max_bytes payloads r.0).1) w',
        )

    -- A task of which no event was stored yet.
    abbrev pub IsNew : Task Payload → Type 0
    IsNew task =
        (task.next_event_id ≡ 0)
        × (task.events ≡ [])
        × (task.retained_event_bytes ≡ 0)
        × (task.start_evicted_before_event_id ≡ 0)

    -- After fewer than 2^64 events of a new task, the events of its log have the ids 1, 2, 3 and so
    -- on, the buffer is the end of the log after the id that the task says was evicted last, with
    -- an exact byte count, and it is within the limits, but that one event is kept whatever its size.
    pub append_all-Follows :
        (max_events max_bytes : ℕ) (payloads : List (ℕ × Payload)) (task : Task Payload)
        → length payloads < id_limit
        → IsNew task
        → let r = append_all max_events max_bytes payloads task in
          IsLog size max_events max_bytes r.0 × Follows r.1 r.0
    append_all-Follows max_events max_bytes payloads task h (n, e, b, s) =
        append_all-Follows_from max_events max_bytes payloads [] task (omega (arith, h, n))
          (record {
            buffer = record {
              consecutive = rw e tt;
              ends = ground (arith, n, e, s);
              exact = rw (e, b) refl;
            };
            within = record { count = rw e (omega arith); room = inl (rw e (omega arith)) };
          })
          (record { numbered = tt; last = sym n; gone = []; split = sym e })
