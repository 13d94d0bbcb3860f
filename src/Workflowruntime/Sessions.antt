-- ===== src/Workflowruntime/Sessions.antt =====
-- gateway/internal/chatruntime/service.go: the sessions of the chat runtime, with the session group
-- of config/types.go. A supervisor is named by a number that stands for the pointer to it, and a
-- provider of connections by its supervisor.
use codex_runtime.Base.{ℕ, Text, Option, none, some, Map, lookup, insert, remove, is_some}
use codex_runtime.Base.{if◌then◌else◌}
use codex_runtime.Appserver.Rpc.{is_empty}

pub data Failure : Type 0 where
  config_required : Failure
  chat_runtime_required : Failure
  base_session_required : Failure
  base_codex_home_required : Failure
  group_id_required : Failure
  workspace_id_required : Failure
  provider_required : Failure
  duplicate_group : Text → Failure
  cwd_required : Failure
  cwd_not_absolute : Failure
  epoch_required : Failure
  project_config_missing : Text → Failure
  project_config_is_dir : Failure
  manager_closed : Failure
  cwd_not_canonical : Text → Failure
  not_started : Text → Failure
  not_closed : Text → Failure

-- The settings are the policy and the limits.
pub record SessionGroup (Settings : Type 0) : Type 0 where
  pub session_group_id : Text
  pub workspace_id : Text
  pub cwd : Text
  pub codex_home : Text
  pub credential_provider_id : Text
  pub settings : Settings
  pub canonical_cwd : Text
  pub canonical_codex_home : Text

pub record Session (Settings : Type 0) : Type 0 where
  pub group : SessionGroup Settings
  pub connection_provider : Option ℕ

module _ {Settings : Type 0} where
  unfoldable pub validate_session : Session Settings → Option Failure
  validate_session s =
      if is_empty s.group.session_group_id
      then some group_id_required
      else if is_empty s.group.workspace_id
      then some workspace_id_required
      else if is_some s.connection_provider
      then none
      else some provider_required

  unfoldable pub register_session :
      Session Settings → Map (Session Settings) → Map (Session Settings) × Option Failure
  register_session s sessions = elim (validate_session s) [
    | some e ↦ (sessions, some e)
    | none ↦
        if is_some (lookup s.group.session_group_id sessions)
        then (sessions, some (duplicate_group s.group.session_group_id))
        else (insert s.group.session_group_id s sessions, none)
  ]

  -- What it returns is not used by its caller here.
  unfoldable pub unregister_session : Text → Map (Session Settings) → Map (Session Settings)
  unregister_session id sessions = if is_empty id then sessions else remove id sessions
