-- ===== src/Workflowruntime/Manager.antt =====
-- gateway/internal/workflowruntime/manager.go: Manager, with the sessions of the chat runtime that it
-- registers. A host lists which supervisors were started and closed, each time that one was.
use codex_runtime.Base.{
  ℕ, Text, Bool, true, false, Option, none, some, List, [], ◌∷◌, Map, lookup, insert, remove,
  Result, ok, err, text_eq, if◌then◌else◌, ◌||◌, not,
}
use codex_runtime.Appserver.Rpc.{is_empty}
use codex_runtime.Workflowruntime.Sessions.{
  Failure, config_required, chat_runtime_required, base_session_required, base_codex_home_required,
  group_id_required, workspace_id_required, cwd_required, cwd_not_absolute, epoch_required,
  project_config_missing, project_config_is_dir, manager_closed, cwd_not_canonical, not_started,
  not_closed, SessionGroup, Session, register_session, unregister_session,
}

pub record WorkflowRuntimeLaunch : Type 0 where
  pub namespace : Text
  pub workflow_id : Text
  pub storage_key : Text
  pub root : Text
  pub session_group_id : Text
  pub workspace_id : Text
  pub runtime_home : Text
  pub cwd : Text
  pub process_epoch : Text

-- What the calls of one operation to the file system and to the processes end in: whether the path is
-- absolute, what os.Stat says of the project's config (whether it is a directory), the canonical path,
-- the supervisor that is started, and how a supervisor's Close ends.
pub record Outside : Type 0 where
  pub is_abs : Text → Bool
  pub stat_config : Text → Result Text Bool
  pub canonicalize_existing_dir : Text → Result Text Text
  pub new_supervisor : Result Text ℕ
  pub close_supervisor : ℕ → Option Text

pub record Entry : Type 0 where
  pub process_epoch : Text
  pub supervisor : ℕ

pub record Options (Config Settings : Type 0) : Type 0 where
  pub config : Option Config
  pub base_session : SessionGroup Settings
  pub has_chat_runtime : Bool

pub record Manager (Config Settings : Type 0) : Type 0 where
  pub config : Config
  pub base_session : SessionGroup Settings
  pub closed : Bool
  pub entries : Map Entry

pub record Host (Config Settings : Type 0) : Type 0 where
  pub manager : Manager Config Settings
  pub sessions : Map (Session Settings)
  pub started : List ℕ
  pub stopped : List ℕ

unfoldable pub validate_launch_identity : WorkflowRuntimeLaunch → Option Failure
validate_launch_identity launch =
    if is_empty launch.session_group_id
    then some group_id_required
    else if is_empty launch.workspace_id
    then some workspace_id_required
    else none

unfoldable pub validate_launch : Outside → WorkflowRuntimeLaunch → Option Failure
validate_launch o launch = elim (validate_launch_identity launch) [
  | some e ↦ some e
  | none ↦
      if is_empty launch.cwd
      then some cwd_required
      else if not (o.is_abs launch.cwd)
      then some cwd_not_absolute
      else if is_empty launch.process_epoch
      then some epoch_required
      else none
]

unfoldable pub validate_runtime_workspace : Outside → WorkflowRuntimeLaunch → Option Failure
validate_runtime_workspace o launch = elim (o.stat_config launch.cwd) [
  | err e ↦ some (project_config_missing e)
  | ok is_dir ↦ if is_dir then some project_config_is_dir else none
]

-- The entry of the group, if any, has the epoch of the launch.
abbrev pub is_current : WorkflowRuntimeLaunch → Option Entry → Bool
is_current launch none = false
is_current launch (some e) = text_eq e.process_epoch launch.process_epoch

abbrev pub close_failure : Option Text → Option Failure
close_failure none = none
close_failure (some e) = some (not_closed e)

abbrev pub first_failure : Option Failure → Option Failure → Option Failure
first_failure none later = later
first_failure (some e) later = some e

module _ {Settings : Type 0} where
  unfoldable pub session_group :
      Outside
      → WorkflowRuntimeLaunch
      → SessionGroup Settings
      → Result Failure (SessionGroup Settings)
  session_group o launch base = elim (o.canonicalize_existing_dir launch.cwd) [
    | err e ↦ err (cwd_not_canonical e)
    | ok canonical ↦ ok (record base {
      session_group_id = launch.session_group_id;
      workspace_id = launch.workspace_id;
      cwd = launch.cwd;
      canonical_cwd = canonical;
    })
  ]

module _ {Config Settings : Type 0} where
  unfoldable pub new_manager : Options Config Settings → Result Failure (Manager Config Settings)
  new_manager options = elim options.config [
    | none ↦ err config_required
    | some config ↦
        if not options.has_chat_runtime
        then err chat_runtime_required
        else if is_empty options.base_session.session_group_id
            || is_empty options.base_session.workspace_id
        then err base_session_required
        else if is_empty options.base_session.canonical_codex_home
        then err base_codex_home_required
        else ok (record {
          config = config;
          base_session = options.base_session;
          closed = false;
          entries = [];
        })
  ]

  abbrev pub with_entries : Map Entry → Manager Config Settings → Manager Config Settings
  with_entries entries m = record m { entries = entries }

  -- A supervisor is closed, however its Close ends.
  abbrev pub stop_supervisor : ℕ → Host Config Settings → Host Config Settings
  stop_supervisor u h = record h { stopped = u ∷ h.stopped }

  -- With the entry of the group.
  unfoldable pub close_entry :
      Outside → Text → Host Config Settings → Option Entry → Host Config Settings × Option Failure
  close_entry o id h none = (h, none)
  close_entry o id h (some current) = (
    stop_supervisor current.supervisor (record h {
      manager = with_entries (remove id h.manager.entries) h.manager;
      sessions = unregister_session id h.sessions;
    }),
    close_failure (o.close_supervisor current.supervisor),
  )

  unfoldable pub close_locked :
      Outside → Text → Host Config Settings → Host Config Settings × Option Failure
  close_locked o id h = close_entry o id h (lookup id h.manager.entries)

  -- After RegisterSession: a supervisor whose session is refused is closed again.
  unfoldable pub after_register :
      WorkflowRuntimeLaunch
      → ℕ
      → Host Config Settings
      → Map (Session Settings) × Option Failure
      → Host Config Settings × Option Failure
  after_register launch u h (sessions, some e) = (stop_supervisor u h, some e)
  after_register launch u h (sessions, none) = (
    record h {
      sessions = sessions;
      manager =
          with_entries
            (insert launch.session_group_id
              (record { process_epoch = launch.process_epoch; supervisor = u }) h.manager.entries)
            h.manager;
    },
    none,
  )

  -- A started supervisor is registered with its group.
  unfoldable pub register_started :
      WorkflowRuntimeLaunch
      → SessionGroup Settings
      → ℕ
      → Host Config Settings
      → Host Config Settings × Option Failure
  register_started launch group u h =
      after_register launch u (record h { started = u ∷ h.started })
        (register_session (record { group = group; connection_provider = some u }) h.sessions)

  -- From sessionGroup on.
  unfoldable pub start_session :
      Outside → WorkflowRuntimeLaunch → Host Config Settings → Host Config Settings × Option Failure
  start_session o launch h = elim (session_group o launch h.manager.base_session) [
    | err e ↦ (h, some e)
    | ok group ↦ elim o.new_supervisor [
      | err e ↦ (h, some (not_started e))
      | ok u ↦ register_started launch group u h
    ]
  ]

  unfoldable pub ensure_workflow_runtime :
      Outside → WorkflowRuntimeLaunch → Host Config Settings → Host Config Settings × Option Failure
  ensure_workflow_runtime o launch h =
      elim (first_failure (validate_launch o launch) (validate_runtime_workspace o launch)) [
        | some e ↦ (h, some e)
        | none ↦
            if h.manager.closed
            then (h, some manager_closed)
            else if is_current launch (lookup launch.session_group_id h.manager.entries)
            then (h, none)
            else start_session o launch (close_locked o launch.session_group_id h).0
      ]

  unfoldable pub close_workflow_runtime :
      Outside → WorkflowRuntimeLaunch → Host Config Settings → Host Config Settings × Option Failure
  close_workflow_runtime o launch h = elim (validate_launch_identity launch) [
    | some e ↦ (h, some e)
    | none ↦ close_locked o launch.session_group_id h
  ]

  -- The loop over the entries, which holds the first error.
  unfoldable pub close_each :
      Outside → Map Entry → Host Config Settings → Host Config Settings × Option Failure
  close_each o [] h = (h, none)
  close_each o ((id, e) ∷ entries) h =
      let (h', failure) = close_locked o id h in
      let (h'', later) = close_each o entries h' in (h'', first_failure failure later)

  unfoldable pub close : Outside → Host Config Settings → Host Config Settings × Option Failure
  close o h =
      close_each o h.manager.entries (record h { manager = record h.manager { closed = true } })
