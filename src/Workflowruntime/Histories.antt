-- ===== src/Workflowruntime/Histories.antt =====
-- gateway/internal/workflowruntime/manager.go: the Manager over whole histories of its calls.
use codex_runtime.Base.{
  ◌≡◌, refl, Text, Bool, true, Option, none, some, List, [], ◌∷◌, Map, lookup, remove, HasKeys,
  count_values, remove-none, text_eq_refl, arith, Option-cases, inl, inr, ok, subst, lookup-remove,
  if-cases, sym, ◌∙◌, ◌+◌,
}
use codex_runtime.Workflowruntime.Sessions.{Failure, Session}
use codex_runtime.Workflowruntime.Manager.{
  WorkflowRuntimeLaunch, Outside, Entry, Options, Manager, Host, new_manager, close_entry,
  close_locked, validate_launch, validate_launch_identity, validate_runtime_workspace,
  first_failure, is_current, ensure_workflow_runtime, close_workflow_runtime, close_each, close,
}
use codex_runtime.Workflowruntime.Accounts.{
  runs, IsServing, close_locked-IsServing, start_session-IsServing,
}

remove-first {ℓ} :
    {V : Type ℓ} (k : Text) (v : V) (m : Map V) → lookup k m ≡ none → remove k ((k, v) ∷ m) ≡ m
unfolding remove
remove-first k v m h = ground (arith, text_eq_refl k, remove-none k m h)

lookup-first {ℓ} : {V : Type ℓ} (k : Text) (v : V) (m : Map V) → lookup k ((k, v) ∷ m) ≡ some v
unfolding lookup
lookup-first k v m = ground (arith, text_eq_refl k)

pub data Call : Type 0 where
  ensures : Outside → WorkflowRuntimeLaunch → Call
  closes : Outside → WorkflowRuntimeLaunch → Call
  shuts : Outside → Call

module _ {Config Settings : Type 0} where
  unfoldable pub step : Host Config Settings → Call → Host Config Settings
  step h (ensures o launch) = (ensure_workflow_runtime o launch h).0
  step h (closes o launch) = (close_workflow_runtime o launch h).0
  step h (shuts o) = (close o h).0

  unfoldable pub serve : Host Config Settings → List Call → Host Config Settings
  serve h [] = h
  serve h (c ∷ cs) = serve (step h c) cs

  -- A manager beside the sessions that there are.
  abbrev pub new_host : Manager Config Settings → Map (Session Settings) → Host Config Settings
  new_host m sessions = record { manager = m; sessions = sessions; started = []; stopped = [] }

  close_locked-entries :
      (o : Outside) (id : Text) (e : Entry) (h : Host Config Settings)
      → lookup id h.manager.entries ≡ some e
      → (close_locked o id h).0.manager.entries ≡ remove id h.manager.entries
  unfolding close_locked close_entry
  close_locked-entries o id e h p = ground (arith, p)

  close_locked-none :
      (o : Outside) (id : Text) (h : Host Config Settings)
      → lookup id (close_locked o id h).0.manager.entries ≡ none
  unfolding close_locked close_entry
  close_locked-none o id h = ground (arith, lookup-remove id id h.manager.entries, text_eq_refl id)

  close_locked-closed :
      (o : Outside) (id : Text) (h : Host Config Settings)
      → (close_locked o id h).0.manager.closed ≡ h.manager.closed
  unfolding close_locked close_entry
  close_locked-closed o id h = ground arith

  ensure-IsServing :
      (initial : Map (Session Settings)) (o : Outside) (launch : WorkflowRuntimeLaunch)
      (h : Host Config Settings)
      → IsServing initial h
      → IsServing initial (ensure_workflow_runtime o launch h).0
  unfolding ensure_workflow_runtime
  ensure-IsServing initial o launch h v =
      elim (Option-cases
        (first_failure (validate_launch o launch) (validate_runtime_workspace o launch))) [
          | inr (e, p) ↦ rw (p, ensure_workflow_runtime) v
          | inl p ↦
              rw (p, ensure_workflow_runtime)
                (if-cases (λ (r : Host Config Settings × Option Failure). IsServing initial r.0)
                  h.manager.closed _ _ (λ q. v)
                  (λ q.
                    if-cases (λ (r : Host Config Settings × Option Failure). IsServing initial r.0)
                      (is_current launch (lookup launch.session_group_id h.manager.entries)) _ _
                      (λ t. v)
                      (λ t.
                        start_session-IsServing initial o launch
                          (close_locked o launch.session_group_id h).0
                          (close_locked-none o launch.session_group_id h)
                          (close_locked-IsServing initial o launch.session_group_id h v))))
        ]

  close_workflow_runtime-IsServing :
      (initial : Map (Session Settings)) (o : Outside) (launch : WorkflowRuntimeLaunch)
      (h : Host Config Settings)
      → IsServing initial h
      → IsServing initial (close_workflow_runtime o launch h).0
  unfolding close_workflow_runtime
  close_workflow_runtime-IsServing initial o launch h v =
      elim (Option-cases (validate_launch_identity launch)) [
        | inr (e, p) ↦ rw (p, close_workflow_runtime) v
        | inl p ↦
            rw (p, close_workflow_runtime)
              (close_locked-IsServing initial o launch.session_group_id h v)
      ]

  -- The loop over the entries leaves none, and the manager as closed as it was.
  pub record Emptied (initial : Map (Session Settings)) (closed : Bool) (h : Host Config Settings)
      : Type 0 where
    pub serving : IsServing initial h
    pub empty : h.manager.entries ≡ []
    pub as_before : h.manager.closed ≡ closed

  close_each-Emptied :
      (initial : Map (Session Settings)) (o : Outside) (entries : Map Entry)
      (h : Host Config Settings)
      → h.manager.entries ≡ entries
      → IsServing initial h
      → Emptied initial h.manager.closed (close_each o entries h).0
  unfolding close_each
  close_each-Emptied initial o [] h p v = record { serving = v; empty = p; as_before = refl }
  close_each-Emptied initial o ((id, e) ∷ entries) h p v =
      let next = (close_locked o id h).0 in
      let alone : lookup id entries ≡ none = (subst HasKeys p v.unique).0 in
      let found : lookup id h.manager.entries ≡ some e =
        subst (λ m. lookup id m ≡ some e) (sym p) (lookup-first id e entries) in
      let left : next.manager.entries ≡ entries =
        close_locked-entries o id e h found
        ∙ subst (λ m. remove id m ≡ entries) (sym p) (remove-first id e entries alone) in
      subst (λ c. Emptied initial c (close_each o entries next).0) (close_locked-closed o id h)
        (close_each-Emptied initial o entries next left (close_locked-IsServing initial o id h v))

  pub close-Emptied :
      (initial : Map (Session Settings)) (o : Outside) (h : Host Config Settings)
      → IsServing initial h
      → Emptied initial true (close o h).0
  unfolding close
  close-Emptied initial o h v =
      close_each-Emptied initial o h.manager.entries
        (record h { manager = record h.manager { closed = true } }) refl
        (record {
          unique = v.unique;
          named = v.named;
          balanced = v.balanced;
          served = v.served;
          added = v.added;
          kept = v.kept;
        })

  pub step-IsServing :
      (initial : Map (Session Settings)) (c : Call) (h : Host Config Settings)
      → IsServing initial h
      → IsServing initial (step h c)
  unfolding step
  step-IsServing initial (ensures o launch) h v = ensure-IsServing initial o launch h v
  step-IsServing initial (closes o launch) h v =
      close_workflow_runtime-IsServing initial o launch h v
  step-IsServing initial (shuts o) h v = (close-Emptied initial o h v).serving

  pub serve-IsServing_from :
      (initial : Map (Session Settings)) (cs : List Call) (h : Host Config Settings)
      → IsServing initial h
      → IsServing initial (serve h cs)
  unfolding serve
  serve-IsServing_from initial [] h v = v
  serve-IsServing_from initial (c ∷ cs) h v =
      serve-IsServing_from initial cs (step h c) (step-IsServing initial c h v)

  new_manager-entries :
      (options : Options Config Settings) (m : Manager Config Settings)
      → new_manager options ≡ ok m
      → m.entries ≡ []
  unfolding new_manager
  new_manager-entries options m h = elim (Option-cases options.config) [
    | inl p ↦ absurd (ground (arith, p, h))
    | inr (c, p) ↦ ground (arith, p, h)
  ]

  new_host-IsServing :
      (initial : Map (Session Settings)) (m : Manager Config Settings)
      → m.entries ≡ []
      → IsServing initial (new_host m initial)
  unfolding lookup count_values
  new_host-IsServing initial m p = record {
    unique = rw p tt;
    named = rw p refl;
    balanced = λ u. subst (λ l. 0 ≡ 0 + count_values (runs u) l) (sym p) refl;
    served = λ id e h. absurd (ground (arith, p, h));
    added = λ id e h. absurd (ground (arith, p, h));
    kept = λ id h. refl;
  }

  -- A manager from NewManager beside a chat runtime with some sessions, after any calls of
  -- EnsureWorkflowRuntime, CloseWorkflowRuntime and Close, whatever the file system and the processes
  -- answer: it has at most one entry for a group; each supervisor was started as often as it was
  -- closed and as it is in an entry, so that none is left running without an entry or closed while it
  -- is in one; the session of a group with an entry connects to the supervisor of that entry, and was
  -- not there at first; and every other group has the session that it had at first, if any.
  pub serve-IsServing :
      (options : Options Config Settings) (m : Manager Config Settings)
      (initial : Map (Session Settings)) (cs : List Call)
      → new_manager options ≡ ok m
      → IsServing initial (serve (new_host m initial) cs)
  serve-IsServing options m initial cs h =
      serve-IsServing_from initial cs (new_host m initial)
        (new_host-IsServing initial m (new_manager-entries options m h))
