-- ===== src/Appserver/Responses.antt =====
-- gateway/internal/appserver/dispatcher.go: responses of the app server to calls, and the ids that
-- a notification announced for a call before.
use codex_runtime.Base.{
  Text, text_eq, ascii, Bool, true, false, not, ◌&&◌, ◌||◌, Option, none, some, List, [], ◌∷◌, Map,
  lookup, insert, remove, is_some, if◌then◌else◌, ok, err,
}
use codex_runtime.Appserver.Rpc.{
  Codec, RpcMessage, RpcError, is_empty, extract_thread_id, extract_turn_id, id_key,
}
use codex_runtime.Appserver.Dispatcher.{
  protocol_mismatch, call_failed, CallMetadata, PendingCall, CallResult, Dispatcher, send_result,
  close_with_error,
}

module _ (codec : Codec) where
  -- What the result says of the call's id; `none` is a method without one.
  unfoldable pub confirmed_id : Text → Text → Option Text
  confirmed_id method result =
      if text_eq method (ascii "thread/start") || text_eq method (ascii "thread/resume")
      then some (extract_thread_id codec result)
      else if text_eq method (ascii "turn/start")
      then some (extract_turn_id codec result)
      else none

  abbrev is_confirmed : Text → Option Text → Bool
  is_confirmed provisional_id none = true
  is_confirmed provisional_id (some id) = not (is_empty id || not (text_eq id provisional_id))

  -- Whether the error is nil; it is protocol_mismatch else.
  unfoldable pub confirm_provisional_id : PendingCall → Text → Bool
  confirm_provisional_id call result =
      if is_empty call.provisional_id
      then true
      else is_confirmed call.provisional_id (confirmed_id call.method result)

  -- What is sent to the call's channel.
  abbrev pub result_of : PendingCall → Text → Option RpcError → CallResult
  result_of call result (some e) = err (call_failed call.method e.code)
  result_of call result none =
      if confirm_provisional_id call result then ok result else err protocol_mismatch

  unfoldable pub deliver : RpcMessage → PendingCall → Dispatcher → Dispatcher
  deliver message call d = record d {
    results = send_result call.result (result_of call message.result message.error) d.results;
  }

  -- Only an error of confirmProvisionalID closes the dispatcher, after it is delivered.
  unfoldable pub breaks_protocol : RpcMessage → PendingCall → Bool
  breaks_protocol message call =
      not (is_some message.error) && not (confirm_provisional_id call message.result)

  abbrev pub answer : RpcMessage → Text → Option PendingCall → Dispatcher → Dispatcher
  answer message key none d = d
  answer message key (some call) d =
      let delivered = deliver message call (record d { pending = remove key d.pending }) in
      if breaks_protocol message call
      then close_with_error protocol_mismatch delivered
      else delivered

  unfoldable pub handle_response : RpcMessage → Dispatcher → Dispatcher
  handle_response message d =
      answer message (id_key codec message.id) (lookup (id_key codec message.id) d.pending) d

-- The ids that a notification of a start carries.
pub record ProvisionalLifecycle : Type 0 where
  pub provisional_id : Text
  pub thread_id : Text
  pub turn_id : Text

unfoldable pub has_expected_lifecycle_id : PendingCall → Bool
has_expected_lifecycle_id call =
    not (is_empty call.expected_thread_id) || not (is_empty call.expected_turn_id)

unfoldable pub matches_lifecycle : PendingCall → Text → ProvisionalLifecycle → Bool
matches_lifecycle call method lifecycle =
    not (not (text_eq call.method method) || not (is_empty call.provisional_id))
    && not (
        not (is_empty call.expected_thread_id)
        && not (text_eq call.expected_thread_id lifecycle.thread_id))
    && not (
        not (is_empty call.expected_turn_id)
        && not (text_eq call.expected_turn_id lifecycle.turn_id))

-- The first call of a method, in the map's order, that matches and expects an id, or the first
-- that matches.
pub record Found : Type 0 where
  pub expected : Option Text
  pub fallback : Option Text

abbrev pub first_of : Option Text → Option Text → Option Text
first_of none later = later
first_of (some key) later = some key

unfoldable pub find_call : Text → ProvisionalLifecycle → Map PendingCall → Found
find_call method lifecycle [] = record { expected = none; fallback = none }
find_call method lifecycle ((key, call) ∷ calls) =
    let rest = find_call method lifecycle calls in
    if matches_lifecycle call method lifecycle
    then (if has_expected_lifecycle_id call
        then record { expected = some key; fallback = rest.fallback }
        else record { expected = rest.expected; fallback = some key })
    else rest

-- The two loops: a method after the other, an expected call wherever there is one.
unfoldable pub find_methods : List Text → ProvisionalLifecycle → Map PendingCall → Found
find_methods [] lifecycle calls = record { expected = none; fallback = none }
find_methods (method ∷ methods) lifecycle calls =
    let here = find_call method lifecycle calls in
    let rest = find_methods methods lifecycle calls in
    record {
      expected = first_of here.expected rest.expected;
      fallback = first_of here.fallback rest.fallback;
    }

unfoldable pub chosen_call : List Text → ProvisionalLifecycle → Map PendingCall → Option Text
chosen_call methods lifecycle calls =
    let found = find_methods methods lifecycle calls in first_of found.expected found.fallback

abbrev pub no_metadata : CallMetadata
no_metadata = record {
  task_id = [];
  session_group_id = [];
  expected_thread_id = [];
  expected_turn_id = [];
  close_on_uncertain = false;
}

abbrev bind_provisional_id :
    Text → Text → Option PendingCall → Dispatcher → Dispatcher × CallMetadata
bind_provisional_id provisional_id key none d = (d, no_metadata)
bind_provisional_id provisional_id key (some call) d = (
  record d { pending = insert key (record call { provisional_id = provisional_id }) d.pending },
  record no_metadata { task_id = call.task_id; session_group_id = call.session_group_id },
)

abbrev pub bind_chosen : Text → Option Text → Dispatcher → Dispatcher × CallMetadata
bind_chosen provisional_id none d = (d, no_metadata)
bind_chosen provisional_id (some key) d =
    bind_provisional_id provisional_id key (lookup key d.pending) d

unfoldable pub bind_lifecycle :
    List Text → ProvisionalLifecycle → Dispatcher → Dispatcher × CallMetadata
bind_lifecycle methods lifecycle d =
    if is_empty lifecycle.provisional_id
    then (d, no_metadata)
    else bind_chosen lifecycle.provisional_id (chosen_call methods lifecycle d.pending) d

module _ (codec : Codec) where
  unfoldable pub record_provisional_id : RpcMessage → Dispatcher → Dispatcher × CallMetadata
  record_provisional_id message d =
      let thread = extract_thread_id codec message.params in
      let turn = extract_turn_id codec message.params in
      if text_eq message.method (ascii "thread/started")
      then bind_lifecycle (ascii "thread/start" ∷ ascii "thread/resume" ∷ [])
          (record { provisional_id = thread; thread_id = thread; turn_id = [] }) d
      else if text_eq message.method (ascii "turn/started")
      then bind_lifecycle (ascii "turn/start" ∷ [])
          (record { provisional_id = turn; thread_id = thread; turn_id = turn }) d
      else (d, no_metadata)
