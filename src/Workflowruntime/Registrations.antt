-- ===== src/Workflowruntime/Registrations.antt =====
-- gateway/internal/workflowruntime/manager.go and chatruntime/service.go: the
-- registration of a session.
use codex_runtime.Base.{
  ℕ, ◌≡◌, Text, text_eq, false, Option, none, some, Map, lookup, insert, lookup-insert, arith,
  Option-cases, inl, inr, if◌then◌else◌, ◌⊎◌, Result-cases, ok,
}
use codex_runtime.Appserver.Rpc.{is_empty}
use codex_runtime.Workflowruntime.Sessions.{
  Failure, SessionGroup, Session, register_session, validate_session,
}
use codex_runtime.Workflowruntime.Manager.{WorkflowRuntimeLaunch, Outside, session_group}

module _ {Settings : Type 0} where
  -- What connects the sessions of a group, by its first session.
  abbrev pub provider_of : Option (Session Settings) → Option (Option ℕ)
  provider_of none = none
  provider_of (some s) = some s.connection_provider

  validate_session-named :
      (s : Session Settings) → validate_session s ≡ none → is_empty s.group.session_group_id ≡ false
  unfolding validate_session
  validate_session-named s h = ground (arith, h)

  -- A session that connects to the supervisor is added under a name that was free.
  pub record Registers (id : Text) (u : ℕ) (before after : Map (Session Settings)) : Type 0 where
    pub named : is_empty id ≡ false
    pub free : lookup id before ≡ none
    pub found :
        (j : Text)
        → provider_of (lookup j after)
          ≡ (if text_eq id j then some (some u) else provider_of (lookup j before))
    pub others : (j : Text) → text_eq id j ≡ false → lookup j after ≡ lookup j before

  pub register_session-cases :
      (s : Session Settings) (u : ℕ) (sessions : Map (Session Settings))
      → s.connection_provider ≡ some u
      → ((e : Failure) × ((register_session s sessions).1 ≡ some e))
        ⊎ (((register_session s sessions).1 ≡ none)
            × Registers s.group.session_group_id u sessions (register_session s sessions).0)
  unfolding register_session
  register_session-cases s u sessions h = elim (Option-cases (register_session s sessions).1) [
    | inr (e, p) ↦ inl (e, p)
    | inl p ↦
        let id = s.group.session_group_id in
        let valid : validate_session s ≡ none = elim (Option-cases (validate_session s)) [
          | inl q ↦ q
          | inr (e, q) ↦ absurd (ground (arith, p, q))
        ] in
        let free : lookup id sessions ≡ none = elim (Option-cases (lookup id sessions)) [
          | inl q ↦ q
          | inr (e, q) ↦ absurd (ground (arith, p, q, valid))
        ] in
        let added : (register_session s sessions).0 ≡ insert id s sessions =
          ground (arith, free, valid) in
        inr (
          p,
          record {
            named = validate_session-named s valid;
            free = free;
            found = λ j. ground (arith, added, h, lookup-insert id j s sessions);
            others = λ j q. ground (arith, added, q, lookup-insert id j s sessions);
          },
        )
  ]

  pub session_group-id :
      (o : Outside) (launch : WorkflowRuntimeLaunch) (base group : SessionGroup Settings)
      → session_group o launch base ≡ ok group
      → group.session_group_id ≡ launch.session_group_id
  unfolding session_group
  session_group-id o launch base group h =
      elim (Result-cases (o.canonicalize_existing_dir launch.cwd)) [
        | inl (e, p) ↦ absurd (ground (arith, p, h))
        | inr (c, p) ↦ ground (arith, p, h)
      ]
