-- ===== src/Tasks/Logs.antt =====
-- gateway/internal/tasks/stream.go: the buffer of a task's events as `appendEventLocked` leaves it.
use codex_runtime.Base.{
  ℕ, ◌+◌, ◌-◌, ◌≤◌, ◌<◌, ◌⊎◌, u64, Bool, ◌&&◌, ◌||◌, ◌≡◌, sym, subst, List, [], ◌∷◌, ◌++◌, length,
  length-append, Bool-cases, ltb, inl, inr, arith,
}
use codex_runtime.Tasks.Events.{
  TaskEvent, Task, enforce_from, enforce_replay_limits, append_event, event_of,
}

abbrev pub id_limit : ℕ
id_limit = 18446744073709551616

-- The test of the loop of `enforceReplayLimitsLocked`.
abbrev pub exceeds : ℕ → ℕ → ℕ → ℕ → Bool
exceeds max_events max_bytes count bytes =
    ltb max_events count || (ltb 1 count && ltb max_bytes bytes)

module _ {Payload : Type 0} where
  -- The events have the ids that follow the number, one after the other.
  abbrev pub Consecutive : ℕ → List (TaskEvent Payload) → Type 0
  Consecutive lo [] = Unit
  Consecutive lo (e ∷ events) = (e.event_id ≡ lo + 1) × Consecutive (lo + 1) events

  pub Consecutive-append :
      (lo : ℕ) (events : List (TaskEvent Payload)) (e : TaskEvent Payload)
      → Consecutive lo events
      → e.event_id ≡ lo + length events + 1
      → Consecutive lo (events ++ (e ∷ []))
  Consecutive-append lo [] e c h = (omega (arith, h), tt)
  Consecutive-append lo (f ∷ events) e c h =
      (c.0, Consecutive-append (lo + 1) events e c.1 (omega (arith, h)))

  module _ (size : TaskEvent Payload → ℕ) where
    abbrev pub total : List (TaskEvent Payload) → ℕ
    total [] = 0
    total (e ∷ events) = size e + total events

    total-append :
        (events : List (TaskEvent Payload)) (e : TaskEvent Payload)
        → total (events ++ (e ∷ [])) ≡ total events + size e
    total-append [] e = omega arith
    total-append (f ∷ events) e = omega (arith, total-append events e)

    -- The end of the log that ends with the id `last`, in its buffer.
    pub record IsBuffer (last : ℕ) (events : List (TaskEvent Payload)) (bytes start : ℕ)
        : Type 0 where
      pub consecutive : Consecutive start events
      pub ends : start + length events ≡ last
      pub exact : bytes ≡ total events

    -- A buffer within the limits, but that one event is kept however large it is.
    pub record IsWithin (max_events max_bytes : ℕ) (events : List (TaskEvent Payload)) (bytes : ℕ)
        : Type 0 where
      pub count : length events ≤ max_events
      pub room : (length events ≤ 1) ⊎ (bytes ≤ max_bytes)

    abbrev pub IsKept : ℕ → ℕ → ℕ → List (TaskEvent Payload) × ℕ × ℕ → Type 0
    IsKept last max_events max_bytes r =
        IsBuffer last r.0 r.1 r.2 × IsWithin max_events max_bytes r.0 r.1

    enforce_from-IsKept :
        (last max_events max_bytes : ℕ) (events : List (TaskEvent Payload)) (bytes start : ℕ)
        → IsBuffer last events bytes start
        → IsKept last max_events max_bytes
            (enforce_from size max_events max_bytes events bytes start)
    unfolding enforce_from
    enforce_from-IsKept last max_events max_bytes [] bytes start v =
        (v, record { count = omega arith; room = inl (omega arith) })
    enforce_from-IsKept last max_events max_bytes (e ∷ events) bytes start v =
        let tail : IsBuffer last events (bytes - size e) e.event_id = record {
          consecutive = subst (λ n. Consecutive n events) (sym v.consecutive.0) v.consecutive.1;
          ends = omega (arith, v.ends, v.consecutive.0);
          exact = omega (arith, v.exact);
        } in
        let rest =
          enforce_from-IsKept last max_events max_bytes events (bytes - size e) e.event_id tail in
        elim (Bool-cases (exceeds max_events max_bytes (length (e ∷ events)) bytes)) [
          | inl p ↦ rw p rest
          | inr p ↦ rw p (v, record { count = ground arith; room = ground arith })
        ]

    pub record IsLog (max_events max_bytes : ℕ) (task : Task Payload) : Type 0 where
      pub buffer :
          IsBuffer task.next_event_id task.events task.retained_event_bytes
            task.start_evicted_before_event_id
      pub within : IsWithin max_events max_bytes task.events task.retained_event_bytes

    pub append_event-IsLog :
        (max_events max_bytes now : ℕ) (payload : Payload) (task : Task Payload)
        → task.next_event_id + 1 < id_limit
        → IsLog max_events max_bytes task
        → IsLog max_events max_bytes (append_event size max_events max_bytes now payload task).0
    unfolding append_event enforce_replay_limits
    append_event-IsLog max_events max_bytes now payload task h v =
        let e = event_of now task payload in
        let next : u64 (task.next_event_id + 1) ≡ task.next_event_id + 1 = omega (arith, h) in
        let added : IsBuffer e.event_id (task.events ++ (e ∷ []))
            (task.retained_event_bytes + size e) task.start_evicted_before_event_id =
          record {
            consecutive =
                Consecutive-append task.start_evicted_before_event_id task.events e
                  v.buffer.consecutive (omega (arith, next, v.buffer.ends));
            ends = omega (arith, next, v.buffer.ends, length-append task.events (e ∷ []));
            exact = omega (arith, v.buffer.exact, total-append task.events e);
          } in
        let kept =
          enforce_from-IsKept e.event_id max_events max_bytes (task.events ++ (e ∷ [])) _ _ added in
        record { buffer = kept.0; within = kept.1 }
