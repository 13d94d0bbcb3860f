-- ===== src/Pending/Inputs.antt =====
-- gateway/internal/pending/response.go: the check of the answers to a tool's questions.
use codex_runtime.Base.{
  Text, Bool, true, ◌&&◌, ◌||◌, Option, none, some, List, [], ◌∷◌, Map, lookup, insert, is_some,
  if◌then◌else◌, Result, ok, err,
}
use codex_runtime.Domain.{PendingResolution, answered}
use codex_runtime.Domain.Responses.{
  PendingResponse, ToolUserInputAnswer, ToolUserInputPendingResponse,
}
use codex_runtime.Redact.Registry.{Registry, add_many}
use codex_runtime.Pending.Records.{Record, ToolQuestionSpec, is_empty}
use codex_runtime.Pending.Responses.{
  ResponseError, type_mismatch, unmappable, question_duplicated, question_unknown,
  value_not_allowed, response_matches_type, is_seen,
}

pub record InputAnswer : Type 0 where
  pub payload : Map (List Text)
  pub resolution : PendingResolution

abbrev pub are_allowed : List Text → List Text → Bool
are_allowed allowed [] = true
are_allowed allowed (v ∷ values) = is_seen v allowed && are_allowed allowed values

-- The condition under which the values of an answer are compared, and the comparison.
unfoldable pub fits_question : ToolQuestionSpec → List Text → Bool
fits_question question values = elim question.allowed_values [
  | [] ↦ true
  | v ∷ vs ↦ question.is_other || are_allowed (v ∷ vs) values
]

-- Values of a secret question are registered.
unfoldable pub register_secret : ToolQuestionSpec → List Text → Registry → Registry
register_secret question values registry =
    if question.is_secret then add_many values registry else registry

abbrev pub check_question :
    Option ToolQuestionSpec → List Text → Registry → Result ResponseError Registry
check_question none values registry = err question_unknown
check_question (some question) values registry =
    if fits_question question values
    then ok (register_secret question values registry)
    else err value_not_allowed

abbrev pub go_on :
    Registry
    → Result ResponseError Registry
    → (Registry → Registry × Option ResponseError)
    → Registry × Option ResponseError
go_on registry (err e) rest = (registry, some e)
go_on registry (ok r) rest = rest r

-- The loop over the answers. The registry keeps what was registered before an error.
unfoldable pub check_answers :
    Map ToolQuestionSpec
    → List Text
    → List ToolUserInputAnswer
    → Registry
    → Registry × Option ResponseError
check_answers questions seen [] registry = (registry, none)
check_answers questions seen (a ∷ answers) registry =
    if is_seen a.question_id seen
    then (registry, some question_duplicated)
    else go_on registry (check_question (lookup a.question_id questions) a.answers registry)
        (λ r. check_answers questions (a.question_id ∷ seen) answers r)

-- NewToolUserInputResponsePayload, from the answers that are already in the payload.
unfoldable pub payload_from : List ToolUserInputAnswer → Map (List Text) → Option (Map (List Text))
payload_from [] payload = some payload
payload_from (a ∷ answers) payload =
    let rest = payload_from answers (insert a.question_id a.answers payload) in
    if is_empty a.question_id || is_some (lookup a.question_id payload) then none else rest

abbrev pub input_answer : Option (Map (List Text)) → Result ResponseError InputAnswer
input_answer none = err unmappable
input_answer (some payload) = ok (record { payload = payload; resolution = answered })

abbrev pub checked_input :
    List ToolUserInputAnswer
    → Registry × Option ResponseError
    → Registry × Result ResponseError InputAnswer
checked_input answers (registry, some e) = (registry, err e)
checked_input answers (registry, none) = (registry, input_answer (payload_from answers []))

module _ {Value : Type 0} where
  abbrev pub given_input :
      Record Value
      → Registry
      → Option ToolUserInputPendingResponse
      → Registry × Result ResponseError InputAnswer
  given_input r registry none = (registry, err type_mismatch)
  given_input r registry (some input) =
      checked_input input.answers (check_answers r.tool_questions [] input.answers registry)

  -- The registry is not nil.
  unfoldable pub validate_tool_user_input_response :
      Record Value → PendingResponse → Registry → Registry × Result ResponseError InputAnswer
  validate_tool_user_input_response r response registry =
      if response_matches_type r.pending.pending_type response
      then given_input r registry response.tool_user_input
      else (registry, err type_mismatch)
