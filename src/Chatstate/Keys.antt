-- ===== src/Chatstate/Keys.antt =====
-- gateway/internal/chatstate/store.go: the keys of the store's maps, the checks of scopes, and
-- the truncation of labels.
pub mod Injective
use codex_runtime.Base.{
  ℕ, Text, text_eq, Bool, true, false, ◌&&◌, ◌||◌, Option, none, some, [], ◌∷◌, ◌++◌, length, take,
  leb, if◌then◌else◌,
}
use codex_runtime.Domain.{GatewayError}
use codex_runtime.Chatstate.Types.{
  Scope, RunScope, RunState, completed, failed, interrupted, IdempotencyScope, PendingStatus,
  active, claimed,
}
use codex_runtime.Chatstate.Failures.{invalid_request}

-- `a + "\x00" + b`
infixr 65 ◌⊕◌
abbrev pub ◌⊕◌ : Text → Text → Text
a ⊕ b = a ++ (0 ∷ b)

unfoldable pub active_run_key : Scope → Text
active_run_key scope = scope.session_group_id ⊕ (scope.workspace_id ⊕ scope.chat_id)

unfoldable pub replay_key : RunScope → Text
unfolding active_run_key
replay_key scope = active_run_key scope.scope ⊕ scope.run_id

unfoldable pub pending_key : RunScope → Text → Text
unfolding replay_key
pending_key scope pending_request_id = replay_key scope ⊕ pending_request_id

unfoldable pub idempotency_key : IdempotencyScope → Text
idempotency_key scope = scope.session_group_id ⊕ (scope.workspace_id ⊕ (scope.chat_id ⊕ scope.key))

unfoldable pub active_run_reservation_key : IdempotencyScope → Text
active_run_reservation_key scope =
    scope.operation
    ⊕ (scope.session_group_id
        ⊕ (scope.workspace_id
            ⊕ (scope.chat_id ⊕ (scope.pending_request_id ⊕ (scope.client_message_id ⊕ scope.key)))))

abbrev pub is_empty : Text → Bool
is_empty [] = true
is_empty (_ ∷ _) = false

-- The error to return, if any.
unfoldable pub validate_run_scope : RunScope → Option GatewayError
validate_run_scope scope =
    if is_empty scope.session_group_id
      || is_empty scope.workspace_id
      || is_empty scope.chat_id
      || is_empty scope.run_id
    then some
        (invalid_request "session group, workspace, chat, and run ids are required" scope.scope)
    else none

-- The scope of the chat that a request with an idempotency key is about.
abbrev pub chat_scope : IdempotencyScope → Scope
chat_scope scope = record {
  session_group_id = scope.session_group_id;
  workspace_id = scope.workspace_id;
  chat_id = scope.chat_id;
}

unfoldable pub validate_idempotency_scope : IdempotencyScope → Option GatewayError
validate_idempotency_scope scope =
    if is_empty scope.operation
      || is_empty scope.session_group_id
      || is_empty scope.workspace_id
      || is_empty scope.key
    then some (
        invalid_request "operation, session group, workspace, and idempotency key are required"
          (chat_scope scope))
    else none

-- `existing.Scope != scope`, negated: Go compares structs field by field.
unfoldable pub same_scope : IdempotencyScope → IdempotencyScope → Bool
same_scope a b =
    text_eq a.operation b.operation
    && text_eq a.session_group_id b.session_group_id
    && text_eq a.workspace_id b.workspace_id
    && text_eq a.chat_id b.chat_id
    && text_eq a.pending_request_id b.pending_request_id
    && text_eq a.client_message_id b.client_message_id
    && text_eq a.key b.key

abbrev pub is_terminal_run_state : RunState → Bool
is_terminal_run_state completed = true
is_terminal_run_state failed = true
is_terminal_run_state interrupted = true
is_terminal_run_state _ = false

-- The test `Status == PendingStatusActive || Status == PendingStatusClaimed`, which occurs often.
abbrev pub is_open : PendingStatus → Bool
is_open active = true
is_open claimed = true
is_open _ = false

-- domain.MaxPublicIDBytes
abbrev pub max_public_id_bytes : ℕ
max_public_id_bytes = 128

unfoldable pub safe_label : Text → Text
safe_label value =
    if leb (length value) max_public_id_bytes then value else take max_public_id_bytes value
