-- ===== src/Pending/Records.antt =====
-- gateway/internal/pending/types.go: the requests that wait for an answer of the user, and their ids.
use codex_runtime.Base.{
  Text, text_eq, ascii, Bool, true, false, ◌||◌, Option, none, some, List, [], ◌∷◌, ◌++◌, Map,
  if◌then◌else◌, ◌==◌, strconv_uint, ℕ,
}
use codex_runtime.Domain.{
  PendingRequest, PendingType, ApprovalDecisionOption, command_approval, file_change_approval,
  permissions_approval, mcp_elicitation, tool_user_input,
}

pub record ToolQuestionSpec : Type 0 where
  pub is_secret : Bool
  pub is_other : Bool
  pub allowed_values : List Text

-- The values of JSON that a grant carries are a parameter, and so is the record of the responses, which
-- gateway/internal/tasks writes.
pub record PermissionGrant (Value : Type 0) : Type 0 where
  pub kind : Text
  pub grantable : Bool
  pub section : Text
  pub field : Text
  pub value : Value

pub record Record (Value : Type 0) : Type 0 where
  pub method : Text
  pub app_server_request_id : Text
  pub jsonrpc_id : Text
  pub active : Bool
  pub pending : PendingRequest
  pub approval_options : Map ApprovalDecisionOption
  pub permission_grants : Map (PermissionGrant Value)
  pub tool_questions : Map ToolQuestionSpec
  pub mcp_sensitive_fields : List Text

abbrev pub is_empty : Text → Bool
is_empty [] = true
is_empty (_ ∷ _) = false

unfoldable pub method_pending_type : Text → Option PendingType
method_pending_type method =
    if text_eq method (ascii "item/commandExecution/requestApproval")
    then some command_approval
    else if text_eq method (ascii "item/fileChange/requestApproval")
    then some file_change_approval
    else if text_eq method (ascii "item/permissions/requestApproval")
    then some permissions_approval
    else if text_eq method (ascii "mcpServer/elicitation/request")
    then some mcp_elicitation
    else if text_eq method (ascii "item/tool/requestUserInput")
    then some tool_user_input
    else none

unfoldable pub request_type_for_pending_type : PendingType → Text
request_type_for_pending_type command_approval = ascii "command_approval"
request_type_for_pending_type file_change_approval = ascii "file_approval"
request_type_for_pending_type permissions_approval = ascii "permissions_approval"
request_type_for_pending_type mcp_elicitation = ascii "mcp_elicitation"
request_type_for_pending_type tool_user_input = ascii "tool_user_input"

unfoldable pub auto_resolution_for_pending_type : PendingType → Text
auto_resolution_for_pending_type command_approval = ascii "decline"
auto_resolution_for_pending_type file_change_approval = ascii "decline"
auto_resolution_for_pending_type mcp_elicitation = ascii "decline"
auto_resolution_for_pending_type permissions_approval = ascii "deny_all"
auto_resolution_for_pending_type tool_user_input = ascii "jsonrpc_error"

-- ' ', '\n', '\r' and '\t'
unfoldable pub is_space : ℕ → Bool
is_space b = b == 32 || b == 10 || b == 13 || b == 9

-- The loop over `start`.
unfoldable pub trim_start : Text → Text
trim_start [] = []
trim_start (b ∷ raw) = let rest = trim_start raw in if is_space b then rest else b ∷ raw

abbrev keep_unless_blank : ℕ → Text → Text
keep_unless_blank b [] = if is_space b then [] else b ∷ []
keep_unless_blank b (c ∷ rest) = b ∷ c ∷ rest

-- The loop over `end`: a byte stays if it is no space, or if one after it stays.
unfoldable pub trim_end : Text → Text
trim_end [] = []
trim_end (b ∷ raw) = keep_unless_blank b (trim_end raw)

unfoldable pub bytes_trim_space : Text → Text
bytes_trim_space raw = trim_end (trim_start raw)

unfoldable pub request_id_key : Text → Text
request_id_key id = bytes_trim_space id

-- "pending-" + strconvUint(sequence)
unfoldable pub pending_id : ℕ → Text
pending_id sequence = ascii "pending-" ++ strconv_uint sequence
