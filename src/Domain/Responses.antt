-- ===== src/Domain/Responses.antt =====
-- gateway/internal/domain/commands.go: what a user answers to a pending request. A scope and an action
-- are strings in the source, and may be any text.
use codex_runtime.Base.{Bool, Text, Option, List}

pub record ApprovalPendingResponse : Type 0 where
  pub decision_id : Text

pub record PermissionsPendingResponse : Type 0 where
  pub permission_ids : List Text
  pub scope : Text
  pub strict_auto_review : Bool

pub record McpElicitationPendingResponse : Type 0 where
  pub action : Text
  pub content_json : Text

pub record ToolUserInputAnswer : Type 0 where
  pub question_id : Text
  pub answers : List Text

pub record ToolUserInputPendingResponse : Type 0 where
  pub answers : List ToolUserInputAnswer

pub record PendingResponse : Type 0 where
  pub approval : Option ApprovalPendingResponse
  pub permissions : Option PermissionsPendingResponse
  pub mcp_elicitation : Option McpElicitationPendingResponse
  pub tool_user_input : Option ToolUserInputPendingResponse
