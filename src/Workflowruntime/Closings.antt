-- ===== src/Workflowruntime/Closings.antt =====
-- gateway/internal/workflowruntime/manager.go: what Close leaves for good.
use codex_runtime.Base.{
  ℕ, ◌+◌, ◌≡◌, Text, true, List, [], ◌∷◌, Map, lookup, count_values, lookup-empty, arith,
  Option-cases, inl, inr, ok, subst, sym,
}
use codex_runtime.Appserver.Accounts.{times}
use codex_runtime.Workflowruntime.Sessions.{Session}
use codex_runtime.Workflowruntime.Manager.{
  WorkflowRuntimeLaunch, Outside, Options, Manager, Host, new_manager, close_entry, close_locked,
  validate_launch, validate_launch_identity, validate_runtime_workspace, first_failure,
  ensure_workflow_runtime, close_workflow_runtime, close,
}
use codex_runtime.Workflowruntime.Accounts.{runs, IsServing}
use codex_runtime.Workflowruntime.Histories.{
  Call, ensures, closes, shuts, step, serve, new_host, close-Emptied, step-IsServing,
  serve-IsServing_from, serve-IsServing,
}

module _ {Config Settings : Type 0} where
  -- Closed for good, and without entries.
  record IsShut (h : Host Config Settings) : Type 0 where
    closed : h.manager.closed ≡ true
    empty : h.manager.entries ≡ []

  close_locked-empty :
      (o : Outside) (id : Text) (h : Host Config Settings)
      → h.manager.entries ≡ []
      → (close_locked o id h).0 ≡ h
  unfolding close_locked close_entry
  close_locked-empty o id h p = ground (arith, lookup-empty id h.manager.entries p)

  ensure-closed :
      (o : Outside) (launch : WorkflowRuntimeLaunch) (h : Host Config Settings)
      → h.manager.closed ≡ true
      → (ensure_workflow_runtime o launch h).0 ≡ h
  unfolding ensure_workflow_runtime
  ensure-closed o launch h p =
      elim (Option-cases
        (first_failure (validate_launch o launch) (validate_runtime_workspace o launch))) [
          | inr (e, q) ↦ ground (arith, q)
          | inl q ↦ ground (arith, p, q)
        ]

  close_workflow_runtime-empty :
      (o : Outside) (launch : WorkflowRuntimeLaunch) (h : Host Config Settings)
      → h.manager.entries ≡ []
      → (close_workflow_runtime o launch h).0 ≡ h
  unfolding close_workflow_runtime
  close_workflow_runtime-empty o launch h p =
      elim (Option-cases (validate_launch_identity launch)) [
        | inr (e, q) ↦ ground (arith, q)
        | inl q ↦ ground (arith, q, close_locked-empty o launch.session_group_id h p)
      ]

  step-IsShut :
      (initial : Map (Session Settings)) (c : Call) (h : Host Config Settings)
      → IsServing initial h
      → IsShut h
      → IsShut (step h c)
  unfolding step
  step-IsShut initial (ensures o launch) h v s =
      subst IsShut (sym (ensure-closed o launch h s.closed)) s
  step-IsShut initial (closes o launch) h v s =
      subst IsShut (sym (close_workflow_runtime-empty o launch h s.empty)) s
  step-IsShut initial (shuts o) h v s =
      let e = close-Emptied initial o h v in record { closed = e.as_before; empty = e.empty }

  serve-IsShut :
      (initial : Map (Session Settings)) (cs : List Call) (h : Host Config Settings)
      → IsServing initial h
      → IsShut h
      → IsShut (serve h cs)
  unfolding serve
  serve-IsShut initial [] h v s = s
  serve-IsShut initial (c ∷ cs) h v s =
      serve-IsShut initial cs (step h c) (step-IsServing initial c h v)
        (step-IsShut initial c h v s)

  balanced-empty :
      (initial : Map (Session Settings)) (h : Host Config Settings) (u : ℕ)
      → IsServing initial h
      → h.manager.entries ≡ []
      → times u h.started ≡ times u h.stopped
  unfolding count_values
  balanced-empty initial h u v p =
      let sum =
        subst (λ l. times u h.started ≡ times u h.stopped + count_values (runs u) l) p
          (v.balanced u) in
      omega (arith, sum)

  -- Once Close was called on a manager from NewManager, after any calls, and whatever is called
  -- afterwards, every supervisor has been closed as often as it was started, and every group has the
  -- session that it had at first, if any.
  pub close-stops_all :
      (options : Options Config Settings) (m : Manager Config Settings)
      (initial : Map (Session Settings)) (before after : List Call) (o : Outside)
      → new_manager options ≡ ok m
      → ((u : ℕ)
          → times u (serve (close o (serve (new_host m initial) before)).0 after).started
            ≡ times u (serve (close o (serve (new_host m initial) before)).0 after).stopped)
        × ((id : Text)
            → lookup id (serve (close o (serve (new_host m initial) before)).0 after).sessions
              ≡ lookup id initial)
  close-stops_all options m initial before after o h =
      let e = close-Emptied initial o _ (serve-IsServing options m initial before h) in
      let shut =
        serve-IsShut initial after _ e.serving (record { closed = e.as_before; empty = e.empty }) in
      let v = serve-IsServing_from initial after _ e.serving in
      (
        (λ u. balanced-empty initial _ u v shut.empty),
        λ id. v.kept id (lookup-empty id _ shut.empty),
      )
