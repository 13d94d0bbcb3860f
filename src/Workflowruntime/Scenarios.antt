-- ===== src/Workflowruntime/Scenarios.antt =====
-- A manager beside a chat runtime with one session: a launch, a relaunch in a new epoch, the close.
use codex_runtime.Base.{
  ℕ, ◌≡◌, refl, Text, ascii, true, false, some, List, [], ◌∷◌, Map, lookup, ok, text_eq, insert,
  remove,
}
use codex_runtime.Appserver.Accounts.{times}
use codex_runtime.Workflowruntime.Sessions.{
  SessionGroup, Session, register_session, unregister_session, validate_session,
}
use codex_runtime.Workflowruntime.Manager.{
  WorkflowRuntimeLaunch, Outside, Options, Manager, Host, new_manager, close_entry, close_locked,
  validate_launch, validate_launch_identity, validate_runtime_workspace, session_group,
  after_register, register_started, start_session, ensure_workflow_runtime, close_workflow_runtime,
  close,
}
use codex_runtime.Workflowruntime.Accounts.{IsServing}
use codex_runtime.Workflowruntime.Histories.{
  Call, ensures, closes, shuts, step, serve, new_host, serve-IsServing,
}
use codex_runtime.Workflowruntime.Closings.{close-stops_all}

abbrev base_session : SessionGroup ℕ
base_session = record {
  session_group_id = ascii "chats";
  workspace_id = ascii "main";
  cwd = ascii "/work";
  codex_home = ascii "/home/codex";
  credential_provider_id = ascii "login";
  settings = 5;
  canonical_cwd = ascii "/work";
  canonical_codex_home = ascii "/home/codex";
}

abbrev options : Options ℕ ℕ
options = record { config = some 1; base_session = base_session; has_chat_runtime = true }

abbrev manager : Manager ℕ ℕ
manager = record { config = 1; base_session = base_session; closed = false; entries = [] }

new_manager_runs : new_manager options ≡ ok manager
unfolding new_manager
new_manager_runs = refl

abbrev initial : Map (Session ℕ)
initial = (ascii "chats", record { group = base_session; connection_provider = some 9 }) ∷ []

-- The processes start the supervisor of the number.
abbrev outside : ℕ → Outside
outside u = record {
  is_abs = λ path. true;
  stat_config = λ path. ok false;
  canonicalize_existing_dir = λ path. ok path;
  new_supervisor = ok u;
  close_supervisor = λ closed. some (ascii "exited");
}

abbrev launch : Text → Text → WorkflowRuntimeLaunch
launch group epoch = record {
  namespace = ascii "default";
  workflow_id = ascii "build";
  storage_key = ascii "build-1";
  root = ascii "/flows";
  session_group_id = group;
  workspace_id = ascii "flows";
  runtime_home = ascii "/flows/home";
  cwd = ascii "/flows/build";
  process_epoch = epoch;
}

-- Two epochs of one group, one of another, one of a group that the chat runtime has already.
abbrev calls : List Call
calls =
    ensures (outside 1) (launch (ascii "build") (ascii "a"))
    ∷ ensures (outside 2) (launch (ascii "build") (ascii "b"))
    ∷ ensures (outside 3) (launch (ascii "test") (ascii "a"))
    ∷ ensures (outside 4) (launch (ascii "chats") (ascii "a"))
    ∷ closes (outside 5) (launch (ascii "test") (ascii "a"))
    ∷ []

abbrev host : Host ℕ ℕ
host = new_host manager initial

calls_run :
    ((serve host calls).started ≡ 4 ∷ 3 ∷ 2 ∷ 1 ∷ [])
    × ((serve host calls).stopped ≡ 3 ∷ 4 ∷ 1 ∷ [])
unfolding serve step ensure_workflow_runtime validate_launch validate_launch_identity
    validate_runtime_workspace close_workflow_runtime close_locked close_entry start_session
    session_group register_started after_register register_session unregister_session
    validate_session lookup insert remove text_eq
calls_run = (refl, refl)

serve-IsServing_example : IsServing initial (serve host calls)
serve-IsServing_example = serve-IsServing options manager initial calls new_manager_runs

abbrev late : List Call
late = ensures (outside 6) (launch (ascii "build") (ascii "c")) ∷ shuts (outside 7) ∷ []

close-stops_all_example :
    ((u : ℕ)
      → times u (serve (close (outside 5) (serve host calls)).0 late).started
        ≡ times u (serve (close (outside 5) (serve host calls)).0 late).stopped)
    × ((id : Text)
        → lookup id (serve (close (outside 5) (serve host calls)).0 late).sessions
          ≡ lookup id initial)
close-stops_all_example =
    close-stops_all options manager initial calls late (outside 5) new_manager_runs
