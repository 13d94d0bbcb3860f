-- ===== src/Domain/Enums.antt =====
-- gateway/internal/domain/enums.go, the enumerations that events carry.
pub data ChatTurnLifecycle : Type 0 where
  in_progress completed interrupted failed turn_unknown turn_unavailable : ChatTurnLifecycle

pub data TaskState : Type 0 where
  starting running waiting_for_pending_request interrupting : TaskState
  completed failed interrupted : TaskState

pub data CommandOutputStream : Type 0 where
  combined : CommandOutputStream

pub data PendingType : Type 0 where
  command_approval file_change_approval permissions_approval : PendingType
  mcp_elicitation tool_user_input : PendingType

pub data PendingResolution : Type 0 where
  accepted declined cancelled granted denied answered expired cleared failed : PendingResolution

pub data ApprovalWireDecision : Type 0 where
  accept accept_for_session decline cancel : ApprovalWireDecision

pub data PermissionScope : Type 0 where
  turn session : PermissionScope

pub data ElicitationMode : Type 0 where
  form url : ElicitationMode
