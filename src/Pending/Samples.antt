-- ===== src/Pending/Samples.antt =====
-- A request for permissions and one for input with a secret, and answers to them.
use codex_runtime.Base.{
  ℕ, ◌≡◌, refl, Text, text_eq, ascii, Bool, true, false, Option, none, some, List, [], ◌∷◌, All,
  Map, lookup, insert, ok,
}
use codex_runtime.Domain.{no_display, tool_user_input, PendingType, granted, answered}
use codex_runtime.Domain.Responses.{
  PendingResponse, PermissionsPendingResponse, ToolUserInputPendingResponse,
}
use codex_runtime.Redact.Registry.{new_registry}
use codex_runtime.Redact.Covering.{new_registry-IsSound}
use codex_runtime.Pending.Records.{Record, PermissionGrant}
use codex_runtime.Pending.Responses.{Values, PermissionsAnswer, response_matches_type}
use codex_runtime.Pending.Inputs.{
  InputAnswer, validate_tool_user_input_response, check_answers, payload_from, fits_question,
}
use codex_runtime.Pending.Checks.{Distinct}
use codex_runtime.Pending.Secrets.{ids_in, IsChecked, answers-IsChecked}

-- Values of JSON, with their arrays and their objects.
mutual
  data Json : Type 0 where
    nil : Json
    number : ℕ → Json
    array : Items → Json
    object : Fields → Json

  data Items : Type 0 where
    no_items : Items
    item : Json → Items → Items

  data Fields : Type 0 where
    no_fields : Fields
    field : Text → Json → Fields → Fields

abbrev items_of : List Json → Items
items_of [] = no_items
items_of (v ∷ vs) = item v (items_of vs)

abbrev list_of : Items → List Json
list_of no_items = []
list_of (item v vs) = v ∷ list_of vs

abbrev fields_made : Map Json → Fields
fields_made [] = no_fields
fields_made ((k, v) ∷ m) = field k v (fields_made m)

abbrev map_of : Fields → Map Json
map_of no_fields = []
map_of (field k v fs) = (k, v) ∷ map_of fs

abbrev object_in : Json → Option (Map Json)
object_in (object fs) = some (map_of fs)
object_in _ = none

abbrev array_in : Json → Option (List Json)
array_in (array vs) = some (list_of vs)
array_in _ = none

abbrev is_null : Json → Bool
is_null nil = true
is_null _ = false

abbrev json : Values Json
json = record {
  as_object = object_in;
  as_array = array_in;
  is_nil = is_null;
  object = λ m. object (fields_made m);
  array = λ vs. array (items_of vs);
}

abbrev read_grant : ℕ → PermissionGrant Json
read_grant n = record {
  kind = ascii "read";
  grantable = true;
  section = ascii "fileSystem";
  field = ascii "read";
  value = number n;
}

abbrev grants : Map (PermissionGrant Json)
grants =
    (ascii "p", read_grant 7)
    ∷ (ascii "q", record (read_grant 8) { section = []; kind = ascii "fileSystem" })
    ∷ (ascii "r", read_grant 9)
    ∷ []

abbrev request_of : PendingType → Record Json
request_of pending_type = record {
  method = [];
  app_server_request_id = [];
  jsonrpc_id = [];
  active = true;
  pending = record {
    pending_request_id = [];
    task_id = [];
    pending_type = pending_type;
    created_at_unix_ms = 5;
    thread_id = [];
    turn_id = [];
    item_id = [];
    display = no_display;
  };
  approval_options = [];
  permission_grants = grants;
  tool_questions =
      (
        ascii "q",
        record {
          is_secret = true;
          is_other = false;
          allowed_values = ascii "other" ∷ ascii "secret" ∷ [];
        },
      )
      ∷ [];
  mcp_sensitive_fields = [];
}

abbrev chosen : List Text
chosen = ascii "r" ∷ ascii "q" ∷ []

abbrev selection : PermissionsPendingResponse
selection = record { permission_ids = chosen; scope = ascii "session"; strict_auto_review = false }

abbrev permissions_response : PendingResponse
permissions_response = record {
  approval = none;
  permissions = some selection;
  mcp_elicitation = none;
  tool_user_input = none;
}

abbrev granted_answer : PermissionsAnswer Json
granted_answer = record {
  payload = record {
    permissions =
        (
          ascii "fileSystem",
          object
              (field (ascii "read") (array (item (number 9) (item (number 8) no_items))) no_fields),
        )
        ∷ [];
    scope = ascii "session";
    strict_auto_review = false;
  };
  resolution = granted;
}

abbrev input : ToolUserInputPendingResponse
input = record { answers = record { question_id = ascii "q"; answers = ascii "secret" ∷ [] } ∷ [] }

abbrev input_response : PendingResponse
input_response = record {
  approval = none;
  permissions = none;
  mcp_elicitation = none;
  tool_user_input = some input;
}

abbrev input_ok : InputAnswer
input_ok = record { payload = (ascii "q", ascii "secret" ∷ []) ∷ []; resolution = answered }

input_checked :
    (validate_tool_user_input_response (request_of tool_user_input) input_response new_registry).1
    ≡ ok input_ok
unfolding validate_tool_user_input_response response_matches_type check_answers payload_from
    fits_question lookup insert text_eq
input_checked = refl

answers-IsChecked_example :
    Distinct [] (ids_in input.answers)
    × All
        (IsChecked
          (request_of tool_user_input).tool_questions
          (validate_tool_user_input_response
            (request_of tool_user_input)
            input_response
            new_registry).0)
        input.answers
answers-IsChecked_example =
    answers-IsChecked (request_of tool_user_input) input_response input new_registry input_ok refl
      new_registry-IsSound input_checked
