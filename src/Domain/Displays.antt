-- ===== src/Domain/Displays.antt =====
-- gateway/internal/domain/events.go: what a pending request shows to a user.
use codex_runtime.Base.{Bool, Text, Option, List}
use codex_runtime.Domain.Enums.{ApprovalWireDecision, PermissionScope, ElicitationMode}

pub record PermissionAtom : Type 0 where
  pub permission_id : Text
  pub kind : Text
  pub display_label : Text
  pub scope_label : Text
  pub grantable : Bool
  pub ungrantable_reason : Text

pub record ToolUserInputQuestion : Type 0 where
  pub id : Text
  pub header : Text
  pub question : Text
  pub is_other : Bool
  pub is_secret : Bool
  pub options : List Text

pub record NetworkContextDisplay : Type 0 where
  pub host_label : Text
  pub protocol : Text

pub record AdditionalNetworkDisplay : Type 0 where
  pub enabled : Bool

pub record AdditionalFilesystemEntry : Type 0 where
  pub entry_id : Text
  pub access : Text
  pub path_label : Text
  pub approvable : Bool
  pub unapprovable_reason : Text

pub record ExecPolicyAmendmentSummary : Type 0 where
  pub command_display : Text
  pub truncated : Bool

pub record NetworkPolicyAmendmentSummary : Type 0 where
  pub host_label : Text
  pub action : Text
  pub approvable : Bool

pub record ApprovalSecurityMetadata : Type 0 where
  pub has_privilege_expansion : Bool
  pub network_context : Option NetworkContextDisplay
  pub additional_network : Option AdditionalNetworkDisplay
  pub additional_filesystem_entries : List AdditionalFilesystemEntry
  pub exec_policy_amendment_summary : Option ExecPolicyAmendmentSummary
  pub network_policy_amendment_summaries : List NetworkPolicyAmendmentSummary
  pub blocking_reason : Text

pub record FileGrantRootDisplay : Type 0 where
  pub present : Bool
  pub root_label : Text
  pub under_configured_cwd : Bool
  pub approvable : Bool
  pub unapprovable_reason : Text

pub record ApprovalDecisionOption : Type 0 where
  pub decision_id : Text
  pub wire_decision : ApprovalWireDecision
  pub display_label : Text
  pub summary : Text
  pub selectable : Bool
  pub unsupported_reason : Text

pub record CommandApprovalDisplay : Type 0 where
  pub command_display : Text
  pub workspace_label : Text
  pub reason : Text
  pub approval_security : Option ApprovalSecurityMetadata
  pub decision_options : List ApprovalDecisionOption

pub record FileChangeApprovalDisplay : Type 0 where
  pub file_label : Text
  pub change_kind : Text
  pub diff_summary : Text
  pub diff_unified : Text
  pub diff_unavailable : Bool
  pub grant_root : Option FileGrantRootDisplay
  pub decision_options : List ApprovalDecisionOption

pub record PermissionsApprovalDisplay : Type 0 where
  pub requested_permissions : List PermissionAtom
  pub recommended_scope : PermissionScope
  pub reason : Text

pub record McpElicitationDisplay : Type 0 where
  pub mode : ElicitationMode
  pub message : Text
  pub form_schema_json : Text
  pub url : Text
  pub submit_label : Text

pub record ToolUserInputDisplay : Type 0 where
  pub questions : List ToolUserInputQuestion

-- The interface's implementations, and its nil value.
pub data PendingRequestDisplay : Type 0 where
  no_display : PendingRequestDisplay
  command_approval_display : CommandApprovalDisplay → PendingRequestDisplay
  file_change_approval_display : FileChangeApprovalDisplay → PendingRequestDisplay
  permissions_approval_display : PermissionsApprovalDisplay → PendingRequestDisplay
  mcp_elicitation_display : McpElicitationDisplay → PendingRequestDisplay
  tool_user_input_display : ToolUserInputDisplay → PendingRequestDisplay
