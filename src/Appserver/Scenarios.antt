-- ===== src/Appserver/Scenarios.antt =====
-- A dispatcher with the call `turn/start`, whose turn is announced, and a request of the app server.
use codex_runtime.Base.{
  ◌≡◌, refl, Text, ascii, true, false, none, some, List, [], ◌∷◌, length, is_some, lookup, remove,
  insert, text_eq, ok, err, arith, strconv_uint, digits_from, Map,
}
use codex_runtime.Appserver.Rpc.{
  Codec, RpcMessage, TrimsIds, id_key, new_request, must_id, extract_turn_id, extract_thread_id,
  extract_task_id,
}
use codex_runtime.Appserver.Dispatcher.{
  Dispatcher, new_dispatcher, PendingCall, dispatcher_closed, protocol_mismatch, new_pending_call,
  expected_call_metadata, pending_call, close_with_error,
}
use codex_runtime.Appserver.Responses.{
  handle_response, chosen_call, ProvisionalLifecycle, confirmed_id, record_provisional_id,
  bind_lifecycle, find_call, find_methods, matches_lifecycle, has_expected_lifecycle_id,
  no_metadata, deliver, breaks_protocol, confirm_provisional_id,
}
use codex_runtime.Appserver.Requests.{
  accepted, claim_response, handle_message, handle_notification, handle_server_request, request_of,
  read_loop, Line,
}
use codex_runtime.Appserver.Steps.{Step, begins, handles, claims, step, steps}
use codex_runtime.Appserver.Accounts.{IsSettled, times}
use codex_runtime.Appserver.Conservation.{steps-IsSettled}
use codex_runtime.Appserver.Answers.{respond_once}
use codex_runtime.Appserver.Bindings.{preferred, first_key, chosen_call-preferred}
use codex_runtime.Appserver.Lifecycles.{read_loop-answers, handle_response-mismatch}

-- A document is here the id it holds.
abbrev codec : Codec
codec = record {
  trim_space = λ s. s;
  task_payload = λ s. none;
  thread_payload = λ s. some (s, []);
  turn_payload = λ s. some (s, []);
  object_payload = λ s. none;
}

abbrev codec-TrimsIds : TrimsIds codec
codec-TrimsIds n = refl

abbrev turn_started : RpcMessage
turn_started = record {
  id = [];
  method = ascii "turn/started";
  params = ascii "t";
  result = [];
  error = none;
}

abbrev response : Text → RpcMessage
response id = record { id = ascii "1"; method = []; params = []; result = id; error = none }

abbrev question : RpcMessage
question = record { id = ascii "9"; method = ascii "ask"; params = []; result = []; error = none }

abbrev announced : List Step
announced =
    begins (ascii "turn/start") (ok (ascii "t")) no_metadata
    ∷ handles turn_started accepted
    ∷ handles question accepted
    ∷ []

abbrev after_announced : Dispatcher
after_announced = steps codec new_dispatcher announced

steps-IsSettled_example : IsSettled 4 (steps codec new_dispatcher announced)
steps-IsSettled_example = steps-IsSettled codec announced codec-TrimsIds (omega arith)

claimed_first : (claim_response codec (ascii "9") after_announced).1 ≡ none
unfolding claim_response steps step new_pending_call expected_call_metadata new_request pending_call
    must_id strconv_uint digits_from id_key new_dispatcher handle_message handle_notification
    handle_server_request request_of record_provisional_id bind_lifecycle chosen_call find_methods
    find_call matches_lifecycle has_expected_lifecycle_id extract_turn_id extract_thread_id
    extract_task_id lookup insert text_eq
claimed_first = refl

respond_once_example :
    is_some
      (claim_response codec (ascii "9") (
        steps codec
          (claim_response codec (ascii "9") after_announced).0
          (claims (ascii "8") ∷ []))).1
    ≡ true
respond_once_example =
    respond_once codec (ascii "9") after_announced (claims (ascii "8") ∷ []) claimed_first (tt, tt)

abbrev the_call : PendingCall
the_call = record {
  id = 1;
  method = ascii "turn/start";
  task_id = [];
  session_group_id = [];
  expected_thread_id = ascii "t";
  expected_turn_id = [];
  close_on_uncertain = false;
  result = 0;
  provisional_id = ascii "t";
}

announced_running : after_announced.closed ≡ false
unfolding steps step new_pending_call expected_call_metadata new_request pending_call must_id
    strconv_uint digits_from id_key new_dispatcher handle_message handle_notification
    handle_server_request request_of record_provisional_id bind_lifecycle chosen_call find_methods
    find_call matches_lifecycle has_expected_lifecycle_id extract_turn_id extract_thread_id
    extract_task_id lookup insert text_eq
announced_running = refl

announced_call :
    lookup (id_key codec (response (ascii "u")).id) after_announced.pending ≡ some the_call
unfolding steps step new_pending_call expected_call_metadata new_request pending_call must_id
    strconv_uint digits_from id_key new_dispatcher handle_message handle_notification
    handle_server_request request_of record_provisional_id bind_lifecycle chosen_call find_methods
    find_call matches_lifecycle has_expected_lifecycle_id extract_turn_id extract_thread_id
    extract_task_id lookup insert text_eq
announced_call = refl

other_turn : confirmed_id codec the_call.method (response (ascii "u")).result ≡ some (ascii "u")
unfolding confirmed_id extract_turn_id text_eq
other_turn = refl

handle_response-mismatch_example :
    ((handle_response codec (response (ascii "u")) after_announced).results 0
      ≡ err protocol_mismatch ∷ [])
    × ((handle_response codec (response (ascii "u")) after_announced).closed ≡ true)
    × ((handle_response codec (response (ascii "u")) after_announced).close_err ≡ protocol_mismatch)
    × ((handle_response codec (response (ascii "u")) after_announced).pending ≡ [])
handle_response-mismatch_example =
    handle_response-mismatch codec (response (ascii "u")) the_call after_announced (ascii "u")
      (steps-IsSettled codec announced codec-TrimsIds (omega arith)) announced_running
      announced_call refl (ground arith) other_turn (ground arith)

abbrev lines : List Line
lines = ok (response (ascii "t"), accepted) ∷ err dispatcher_closed ∷ []

read_made : (read_loop codec lines (steps codec new_dispatcher announced)).next_channel ≡ 1
unfolding steps step new_pending_call expected_call_metadata new_request pending_call must_id
    strconv_uint digits_from id_key new_dispatcher handle_message handle_notification
    handle_server_request request_of record_provisional_id bind_lifecycle chosen_call find_methods
    find_call matches_lifecycle has_expected_lifecycle_id extract_turn_id extract_thread_id
    extract_task_id lookup insert text_eq read_loop handle_response deliver breaks_protocol
    confirm_provisional_id confirmed_id remove close_with_error
read_made = refl

read_kept : times 0 (read_loop codec lines (steps codec new_dispatcher announced)).withdrawn ≡ 0
unfolding steps step new_pending_call expected_call_metadata new_request pending_call must_id
    strconv_uint digits_from id_key new_dispatcher handle_message handle_notification
    handle_server_request request_of record_provisional_id bind_lifecycle chosen_call find_methods
    find_call matches_lifecycle has_expected_lifecycle_id extract_turn_id extract_thread_id
    extract_task_id lookup insert text_eq read_loop handle_response deliver breaks_protocol
    confirm_provisional_id confirmed_id remove close_with_error
read_kept = refl

read_loop-answers_example :
    length ((read_loop codec lines (steps codec new_dispatcher announced)).results 0) ≡ 1
read_loop-answers_example =
    read_loop-answers codec announced lines 0 codec-TrimsIds (omega arith)
      (omega (arith, read_made)) read_kept

abbrev lifecycle : ProvisionalLifecycle
lifecycle = record { provisional_id = ascii "u"; thread_id = ascii "s"; turn_id = ascii "u" }

abbrev two_calls : Map PendingCall
two_calls =
    (ascii "2", record the_call { expected_thread_id = []; provisional_id = [] })
    ∷ (ascii "3", record the_call { expected_thread_id = ascii "s"; provisional_id = [] })
    ∷ []

chosen_call-preferred_example :
    chosen_call (ascii "turn/start" ∷ []) lifecycle two_calls
    ≡ first_key (preferred (ascii "turn/start" ∷ []) lifecycle two_calls)
chosen_call-preferred_example = chosen_call-preferred (ascii "turn/start" ∷ []) lifecycle two_calls
