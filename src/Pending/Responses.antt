-- ===== src/Pending/Responses.antt =====
-- gateway/internal/pending/response.go: the checks of answers to requests for permissions and for input,
-- with the payloads of gateway/internal/appserver/mapping.go that they are made into.
use codex_runtime.Base.{
  Text, text_eq, ascii, Bool, true, false, not, ◌&&◌, ◌||◌, Option, none, some, is_some, List, [],
  ◌∷◌, ◌++◌, Map, lookup, insert, if◌then◌else◌, Result, ok, err,
}
use codex_runtime.Domain.{
  PendingType, command_approval, file_change_approval, permissions_approval, mcp_elicitation,
  tool_user_input, PendingResolution, granted, denied,
}
use codex_runtime.Domain.Responses.{PendingResponse, PermissionsPendingResponse}
use codex_runtime.Pending.Records.{Record, PermissionGrant, is_empty}

-- The errors, which the source tells apart by their texts.
pub data ResponseError : Type 0 where
  type_mismatch permission_duplicated permission_not_grantable unmappable : ResponseError
  question_duplicated question_unknown value_not_allowed : ResponseError

unfoldable pub response_matches_type : PendingType → PendingResponse → Bool
response_matches_type command_approval r =
    is_some r.approval
    && not (is_some r.permissions)
    && not (is_some r.mcp_elicitation)
    && not (is_some r.tool_user_input)
response_matches_type file_change_approval r =
    is_some r.approval
    && not (is_some r.permissions)
    && not (is_some r.mcp_elicitation)
    && not (is_some r.tool_user_input)
response_matches_type permissions_approval r =
    not (is_some r.approval)
    && is_some r.permissions
    && not (is_some r.mcp_elicitation)
    && not (is_some r.tool_user_input)
response_matches_type mcp_elicitation r =
    not (is_some r.approval)
    && not (is_some r.permissions)
    && is_some r.mcp_elicitation
    && not (is_some r.tool_user_input)
response_matches_type tool_user_input r =
    not (is_some r.approval)
    && not (is_some r.permissions)
    && not (is_some r.mcp_elicitation)
    && is_some r.tool_user_input

abbrev pub is_seen : Text → List Text → Bool
is_seen id [] = false
is_seen id (j ∷ ids) = text_eq j id || is_seen id ids

-- Go's `any` with the values of JSON: what a value is in a type switch, and how one is made.
pub record Values (Value : Type 0) : Type 0 where
  pub as_object : Value → Option (Map Value)
  pub as_array : Value → Option (List Value)
  pub is_nil : Value → Bool
  pub object : Map Value → Value
  pub array : List Value → Value

abbrev has_none : {A : Type 0} → Map A → Bool
has_none [] = true
has_none (_ ∷ _) = false

pub record PermissionsRequestApprovalResponse (Value : Type 0) : Type 0 where
  pub permissions : Map Value
  pub scope : Text
  pub strict_auto_review : Bool

pub record PermissionsAnswer (Value : Type 0) : Type 0 where
  pub payload : PermissionsRequestApprovalResponse Value
  pub resolution : PendingResolution

module _ {Value : Type 0} (values : Values Value) where
  abbrev pub fields_of : Option Value → Map Value
  fields_of none = []
  fields_of (some v) = elim (values.as_object v) [ none ↦ [] | some fields ↦ fields ]

  abbrev pub is_list_field : Text → Bool
  is_list_field field =
      text_eq field (ascii "entries")
      || text_eq field (ascii "read")
      || text_eq field (ascii "write")

  abbrev pub first_value : Text → Value → Value
  first_value field v = if is_list_field field then values.array (v ∷ []) else v

  -- The switch on what the field holds.
  abbrev pub merged_value : Text → Value → Option Value → Value
  merged_value field v none = first_value field v
  merged_value field v (some existing) =
      if values.is_nil existing
      then first_value field v
      else elim (values.as_array existing) [ none ↦ v | some vs ↦ values.array (vs ++ (v ∷ [])) ]

  -- A value is copied where it is stored, which the model does not see.
  unfoldable pub merge_permission_grant : Map Value → PermissionGrant Value → Map Value
  merge_permission_grant target grant =
      let section = if is_empty grant.section then grant.kind else grant.section in
      let fields = fields_of (lookup section target) in
      if is_empty grant.field
      then insert section grant.value target
      else insert section
          (values.object (
            insert grant.field (merged_value grant.field grant.value (lookup grant.field fields))
              fields))
          target

  -- The zero value of a grant, which is not grantable, stands for one that is missing.
  abbrev pub grantable_grant : Option (PermissionGrant Value) → Option (PermissionGrant Value)
  grantable_grant none = none
  grantable_grant (some g) = if g.grantable then some g else none

  abbrev pub merge_or_fail :
      Option (PermissionGrant Value)
      → Map Value
      → (Map Value → Result ResponseError (Map Value))
      → Result ResponseError (Map Value)
  merge_or_fail none target rest = err permission_not_grantable
  merge_or_fail (some g) target rest = rest (merge_permission_grant target g)

  -- The loop over the ids that the user selected.
  unfoldable pub merge_selected :
      Map (PermissionGrant Value)
      → List Text
      → List Text
      → Map Value
      → Result ResponseError (Map Value)
  merge_selected grants seen [] target = ok target
  merge_selected grants seen (id ∷ ids) target =
      if is_seen id seen
      then err permission_duplicated
      else merge_or_fail (grantable_grant (lookup id grants)) target
          (λ t. merge_selected grants (id ∷ seen) ids t)

  -- NewPermissionsRequestApprovalResponse
  unfoldable pub new_permissions_request_approval_response :
      Map Value → Text → Bool → Option (PermissionsRequestApprovalResponse Value)
  new_permissions_request_approval_response permissions scope strict =
      let session = text_eq scope (ascii "session") in
      if not (is_empty scope || text_eq scope (ascii "turn") || session)
      then none
      else if has_none permissions && (session || strict)
      then none
      else some (record {
        permissions = permissions;
        scope = if session then scope else [];
        strict_auto_review = strict;
      })

  abbrev resolution_of : List Text → PendingResolution
  resolution_of [] = denied
  resolution_of (id ∷ ids) = granted

  abbrev pub permissions_answer :
      List Text
      → Option (PermissionsRequestApprovalResponse Value)
      → Result ResponseError (PermissionsAnswer Value)
  permissions_answer selected none = err unmappable
  permissions_answer selected (some payload) =
      ok (record { payload = payload; resolution = resolution_of selected })

  abbrev pub with_granted :
      PermissionsPendingResponse
      → Result ResponseError (Map Value)
      → Result ResponseError (PermissionsAnswer Value)
  with_granted p (err e) = err e
  with_granted p (ok permissions) =
      permissions_answer p.permission_ids
        (new_permissions_request_approval_response permissions p.scope p.strict_auto_review)

  abbrev pub selected_permissions :
      Record Value
      → Option PermissionsPendingResponse
      → Result ResponseError (PermissionsAnswer Value)
  selected_permissions r none = err type_mismatch
  selected_permissions r (some p) =
      with_granted p (merge_selected r.permission_grants [] p.permission_ids [])

  unfoldable pub validate_permissions_response :
      Record Value → PendingResponse → Result ResponseError (PermissionsAnswer Value)
  validate_permissions_response r response =
      if response_matches_type r.pending.pending_type response
      then selected_permissions r response.permissions
      else err type_mismatch
