-- ===== src/Workflowruntime/Accounts.antt =====
-- gateway/internal/workflowruntime/manager.go: each operation, on the supervisors and the sessions.
use codex_runtime.Base.{
  ℕ, ◌+◌, ◌==◌, ◌≡◌, refl, Text, text_eq_iff, Bool, true, false, Option, none, some, [], ◌∷◌, Map,
  lookup, lookup-insert, lookup-remove, HasKeys, HasKeys-insert, HasKeys-remove, count_values,
  count-remove, count-insert_new, arith, Bool-cases, inl, inr, Result-cases, subst,
}
use codex_runtime.Appserver.Rpc.{is_empty}
use codex_runtime.Appserver.Accounts.{times}
use codex_runtime.Workflowruntime.Sessions.{
  Failure, SessionGroup, Session, register_session, unregister_session,
}
use codex_runtime.Workflowruntime.Manager.{
  WorkflowRuntimeLaunch, Outside, Entry, Host, close_entry, after_register, close_locked,
  register_started, start_session, session_group, stop_supervisor,
}
use codex_runtime.Workflowruntime.Registrations.{
  provider_of, Registers, register_session-cases, session_group-id,
}

is_empty-nil : (t : Text) → is_empty t ≡ true → t ≡ []
is_empty-nil [] h = refl
is_empty-nil (x ∷ t) h = cc

abbrev pub runs : ℕ → Entry → Bool
runs u e = e.supervisor == u

module _ {Config Settings : Type 0} where
  -- The manager against the sessions that there were at first.
  pub record IsServing (initial : Map (Session Settings)) (h : Host Config Settings) : Type 0 where
    pub unique : HasKeys h.manager.entries
    pub named : lookup [] h.manager.entries ≡ none
    pub balanced :
        (u : ℕ) → times u h.started ≡ times u h.stopped + count_values (runs u) h.manager.entries
    pub served :
        (id : Text) (e : Entry)
        → lookup id h.manager.entries ≡ some e
        → provider_of (lookup id h.sessions) ≡ some (some e.supervisor)
    pub added :
        (id : Text) (e : Entry) → lookup id h.manager.entries ≡ some e → lookup id initial ≡ none
    pub kept :
        (id : Text) → lookup id h.manager.entries ≡ none → lookup id h.sessions ≡ lookup id initial

  close_entry-IsServing :
      (initial : Map (Session Settings)) (o : Outside) (id : Text) (h : Host Config Settings)
      (c : Option Entry)
      → lookup id h.manager.entries ≡ c
      → IsServing initial h
      → IsServing initial (close_entry o id h c).0
  unfolding close_entry unregister_session
  close_entry-IsServing initial o id h none p v = v
  close_entry-IsServing initial o id h (some e) p v =
      let given : is_empty id ≡ false = elim (Bool-cases (is_empty id)) [
        | inl q ↦ absurd (ground (arith, p, v.named, is_empty-nil id q))
        | inr q ↦ q
      ] in
      record {
        unique = HasKeys-remove id h.manager.entries v.unique;
        named = ground (arith, lookup-remove id [] h.manager.entries, v.named);
        balanced = λ u.
            ground (arith, v.balanced u, count-remove (runs u) id e h.manager.entries v.unique p);
        served = λ j f q. ground (
          arith,
          q,
          given,
          lookup-remove id j h.manager.entries,
          lookup-remove id j h.sessions,
          v.served j f,
        );
        added = λ j f q. ground (arith, q, lookup-remove id j h.manager.entries, v.added j f);
        kept = λ j q. ground (
          arith,
          q,
          p,
          given,
          lookup-remove id j h.manager.entries,
          lookup-remove id j h.sessions,
          v.kept j,
          v.added id e p,
          text_eq_iff id j,
        );
      }

  pub close_locked-IsServing :
      (initial : Map (Session Settings)) (o : Outside) (id : Text) (h : Host Config Settings)
      → IsServing initial h
      → IsServing initial (close_locked o id h).0
  unfolding close_locked
  close_locked-IsServing initial o id h v =
      close_entry-IsServing initial o id h (lookup id h.manager.entries) refl v

  refused-IsServing :
      (initial : Map (Session Settings)) (u : ℕ) (h : Host Config Settings)
      → IsServing initial h
      → IsServing initial (stop_supervisor u (record h { started = u ∷ h.started }))
  refused-IsServing initial u h v = record {
    unique = v.unique;
    named = v.named;
    balanced = λ w. omega (arith, v.balanced w);
    served = v.served;
    added = v.added;
    kept = v.kept;
  }

  after_refusal-IsServing :
      (initial : Map (Session Settings)) (launch : WorkflowRuntimeLaunch) (u : ℕ)
      (h : Host Config Settings) (r : Map (Session Settings) × Option Failure) (e : Failure)
      → r.1 ≡ some e
      → IsServing initial h
      → IsServing initial (after_register launch u (record h { started = u ∷ h.started }) r).0
  unfolding after_register
  after_refusal-IsServing initial launch u h (sessions, some d) e q v =
      refused-IsServing initial u h v
  after_refusal-IsServing initial launch u h (sessions, none) e q v = absurd (ground (arith, q))

  -- The group has no entry.
  after_register-IsServing :
      (initial : Map (Session Settings)) (launch : WorkflowRuntimeLaunch) (u : ℕ)
      (h : Host Config Settings) (r : Map (Session Settings) × Option Failure)
      → r.1 ≡ none
      → Registers launch.session_group_id u h.sessions r.0
      → lookup launch.session_group_id h.manager.entries ≡ none
      → IsServing initial h
      → IsServing initial (after_register launch u (record h { started = u ∷ h.started }) r).0
  unfolding after_register
  after_register-IsServing initial launch u h (sessions, some e) q g p v =
      absurd (ground (arith, q))
  after_register-IsServing initial launch u h (sessions, none) q g p v =
      let id = launch.session_group_id in
      let e : Entry = record { process_epoch = launch.process_epoch; supervisor = u } in
      record {
        unique = HasKeys-insert id e h.manager.entries v.unique;
        named =
            ground
              (arith, lookup-insert id [] e h.manager.entries, v.named, g.named, text_eq_iff id []);
        balanced =
            λ w. ground (arith, v.balanced w, count-insert_new (runs w) id e h.manager.entries p);
        served = λ j f k.
            ground (arith, k, g.found j, lookup-insert id j e h.manager.entries, v.served j f);
        added = λ j f k. ground (
          arith,
          k,
          lookup-insert id j e h.manager.entries,
          v.added j f,
          v.kept id p,
          g.free,
          text_eq_iff id j,
        );
        kept =
            λ j k. ground (arith, k, g.others j, lookup-insert id j e h.manager.entries, v.kept j);
      }

  register_started-IsServing :
      (initial : Map (Session Settings)) (launch : WorkflowRuntimeLaunch)
      (group : SessionGroup Settings) (u : ℕ) (h : Host Config Settings)
      → group.session_group_id ≡ launch.session_group_id
      → lookup launch.session_group_id h.manager.entries ≡ none
      → IsServing initial h
      → IsServing initial (register_started launch group u h).0
  unfolding register_started
  register_started-IsServing initial launch group u h same p v =
      let s : Session Settings = record { group = group; connection_provider = some u } in
      elim (register_session-cases s u h.sessions refl) [
        | inl (e, q) ↦
            after_refusal-IsServing initial launch u h (register_session s h.sessions) e q v
        | inr (q, g) ↦
            after_register-IsServing initial launch u h (register_session s h.sessions) q
              (subst (λ id. Registers id u h.sessions (register_session s h.sessions).0) same g) p v
      ]

  pub start_session-IsServing :
      (initial : Map (Session Settings)) (o : Outside) (launch : WorkflowRuntimeLaunch)
      (h : Host Config Settings)
      → lookup launch.session_group_id h.manager.entries ≡ none
      → IsServing initial h
      → IsServing initial (start_session o launch h).0
  unfolding start_session
  start_session-IsServing initial o launch h p v =
      elim (Result-cases (session_group o launch h.manager.base_session)) [
        | inl (e, r) ↦ rw (r, start_session) v
        | inr (group, r) ↦ elim (Result-cases o.new_supervisor) [
          | inl (e, t) ↦ rw (r, start_session, t) v
          | inr (u, t) ↦
              rw (r, start_session, t)
                (register_started-IsServing initial launch group u h
                  (session_group-id o launch h.manager.base_session group r) p v)
        ]
      ]
