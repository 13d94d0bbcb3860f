-- ===== src/Appserver/Rpc.antt =====
-- gateway/internal/appserver: the messages of jsonrpc.go and the ids of ids.go. What json.Unmarshal
-- finds in a document is a parameter.
use codex_runtime.Base.{
  ◌≡◌, true, false, ℕ, Text, ascii, Bool, Option, none, some, [], ◌∷◌, Map, lookup, if◌then◌else◌,
  strconv_uint, ℤ,
}

-- What encoding/json and bytes do with the documents of the protocol; `none` is a document that
-- does not have the form that is asked for.
pub record Codec : Type 0 where
  pub trim_space : Text → Text
  pub task_payload : Text → Option Text
  -- the fields threadId and thread.id
  pub thread_payload : Text → Option (Text × Text)
  -- the fields turnId and turn.id
  pub turn_payload : Text → Option (Text × Text)
  pub object_payload : Text → Option (Map Text)

-- The id of a call comes back as it was written.
abbrev pub TrimsIds : Codec → Type 0
TrimsIds codec = (n : ℕ) → codec.trim_space (strconv_uint n) ≡ strconv_uint n

pub record RpcError : Type 0 where
  pub code : ℤ
  pub message : Text

-- A raw message that is absent is empty. The version is left out: it is "2.0" in every message
-- that is parsed, and encodeRPCJSONL drops it.
pub record RpcMessage : Type 0 where
  pub id : Text
  pub method : Text
  pub params : Text
  pub result : Text
  pub error : Option RpcError

abbrev pub is_empty : Text → Bool
is_empty [] = true
is_empty (_ ∷ _) = false

-- mustID
unfoldable pub must_id : ℕ → Text
must_id id = strconv_uint id

unfoldable pub new_request : ℕ → Text → Text → RpcMessage
new_request id method params = record {
  id = must_id id;
  method = method;
  params = params;
  result = [];
  error = none;
}

unfoldable pub new_notification : Text → Text → RpcMessage
new_notification method params = record {
  id = [];
  method = method;
  params = params;
  result = [];
  error = none;
}

unfoldable pub new_success_response : Text → Text → RpcMessage
new_success_response id result = record {
  id = id;
  method = [];
  params = [];
  result = result;
  error = none;
}

unfoldable pub new_error_response : Text → ℤ → Text → RpcMessage
new_error_response id code message = record {
  id = id;
  method = [];
  params = [];
  result = [];
  error = some (record { code = code; message = message });
}

abbrev first_present : Option (Text × Text) → Text
first_present none = []
first_present (some (flat, nested)) = if is_empty nested then flat else nested

abbrev or_empty : Option Text → Text
or_empty none = []
or_empty (some s) = s

module _ (codec : Codec) where
  unfoldable pub extract_task_id : Text → Text
  extract_task_id raw = if is_empty raw then [] else or_empty (codec.task_payload raw)

  unfoldable pub extract_thread_id : Text → Text
  extract_thread_id raw = if is_empty raw then [] else first_present (codec.thread_payload raw)

  unfoldable pub extract_turn_id : Text → Text
  extract_turn_id raw = if is_empty raw then [] else first_present (codec.turn_payload raw)

  unfoldable pub id_key : Text → Text
  id_key id = codec.trim_space id

  -- The loop over the names of the field, of which the first that is there counts.
  abbrev resolved_id : Option (Map Text) → Text
  resolved_id none = []
  resolved_id (some payload) =
      let first = or_empty (lookup (ascii "requestId") payload) in
      if is_empty first then or_empty (lookup (ascii "requestID") payload) else first

  unfoldable pub server_request_id_from_resolved : Text → Text
  server_request_id_from_resolved params =
      if is_empty params then [] else resolved_id (codec.object_payload params)
