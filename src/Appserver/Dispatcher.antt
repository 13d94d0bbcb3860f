-- ===== src/Appserver/Dispatcher.antt =====
-- gateway/internal/appserver/dispatcher.go: the calls that wait for a response, and closing. A
-- section between the locks of `mu` is one function, together with the send to a result channel
-- that follows it, since that channel has room for the one result that the holder of the call sends.
use codex_runtime.Base.{
  ℕ, ◌+◌, Text, text_eq, ascii, Bool, true, false, ◌&&◌, ◌||◌, Option, none, some, List, [], ◌∷◌,
  ◌++◌, Map, lookup, insert, remove, ◌==◌, if◌then◌else◌, u64, ℤ, Result, ok, err,
}
use codex_runtime.Appserver.Rpc.{
  Codec, RpcMessage, is_empty, must_id, new_request, extract_thread_id, id_key,
}

-- Errors that are compared or made here, and those that come from a context, a pipe or an encoder.
pub data DispatchError : Type 0 where
  dispatcher_closed duplicate_response protocol_mismatch : DispatchError
  call_failed : Text → ℤ → DispatchError
  duplicate_request_id invalid_shape : DispatchError
  foreign : Text → DispatchError

pub record CallMetadata : Type 0 where
  pub task_id : Text
  pub session_group_id : Text
  pub expected_thread_id : Text
  pub expected_turn_id : Text
  pub close_on_uncertain : Bool

pub record ServerRequest : Type 0 where
  pub id : Text
  pub method : Text
  pub params : Text
  pub task_id : Text

pub record Notification : Type 0 where
  pub method : Text
  pub params : Text
  pub task_id : Text
  pub session_group_id : Text
  pub server_request_resolved_checked : Bool
  pub server_request_resolved_matched : Bool

-- `result` is the address of the channel.
pub record PendingCall : Type 0 where
  pub id : ℕ
  pub method : Text
  pub task_id : Text
  pub session_group_id : Text
  pub expected_thread_id : Text
  pub expected_turn_id : Text
  pub close_on_uncertain : Bool
  pub result : ℕ
  pub provisional_id : Text

abbrev pub CallResult : Type 0
CallResult = Result DispatchError Text

pub record ServerRequestState : Type 0 where
  pub request : ServerRequest
  pub responded : Bool

-- `next_channel` and `results` are the heap of result channels: the address of the next one, and
-- what was ever sent to each. `written`, `requests` and `notifications` are what went out so far,
-- `withdrawn` the channels of the calls that their callers removed.
pub record Dispatcher : Type 0 where
  pub next_id : ℕ
  pub pending : Map PendingCall
  pub server_requests : Map ServerRequestState
  pub closed : Bool
  pub close_err : DispatchError
  pub next_channel : ℕ
  pub results : ℕ → List CallResult
  pub withdrawn : List ℕ
  pub written : List RpcMessage
  pub requests : List ServerRequest
  pub notifications : List Notification

abbrev pub no_results : ℕ → List CallResult
no_results c = []

-- NewDispatcher; an error that is nil is not told apart from `dispatcher_closed`, which
-- `closeError` returns for it.
unfoldable pub new_dispatcher : Dispatcher
new_dispatcher = record {
  next_id = 1;
  pending = [];
  server_requests = [];
  closed = false;
  close_err = dispatcher_closed;
  next_channel = 0;
  results = no_results;
  withdrawn = [];
  written = [];
  requests = [];
  notifications = [];
}

-- c <- result
unfoldable pub send_result : ℕ → CallResult → (ℕ → List CallResult) → ℕ → List CallResult
send_result c result results = λ j. if j == c then results j ++ (result ∷ []) else results j

-- The loop of closeWithError over the calls that were pending.
unfoldable pub fail_each :
    DispatchError → Map PendingCall → (ℕ → List CallResult) → ℕ → List CallResult
fail_each e [] results = results
fail_each e ((k, call) ∷ calls) results =
    fail_each e calls (send_result call.result (err e) results)

unfoldable pub close_with_error : DispatchError → Dispatcher → Dispatcher
close_with_error e d = if d.closed then d else record d {
  closed = true;
  close_err = e;
  pending = [];
  server_requests = [];
  results = fail_each e d.pending d.results;
}

module _ (codec : Codec) where
  unfoldable pub expected_call_metadata : Text → Text → CallMetadata → CallMetadata
  expected_call_metadata method params metadata =
      if (text_eq method (ascii "thread/resume") || text_eq method (ascii "turn/start"))
        && is_empty metadata.expected_thread_id
      then record metadata { expected_thread_id = extract_thread_id codec params }
      else metadata

  unfoldable pub pending_call : ℕ → ℕ → Text → CallMetadata → PendingCall
  pending_call id c method metadata = record {
    id = id;
    method = method;
    task_id = metadata.task_id;
    session_group_id = metadata.session_group_id;
    expected_thread_id = metadata.expected_thread_id;
    expected_turn_id = metadata.expected_turn_id;
    close_on_uncertain = metadata.close_on_uncertain;
    result = c;
    provisional_id = [];
  }

  abbrev pub prepare_call :
      Text
      → CallMetadata
      → Dispatcher
      → Result DispatchError Text
      → Dispatcher × Result DispatchError (PendingCall × RpcMessage)
  prepare_call method metadata d (err e) = (record d { next_id = u64 (d.next_id + 1) }, err e)
  prepare_call method metadata d (ok raw) =
      let call =
        pending_call d.next_id d.next_channel method (expected_call_metadata method raw metadata) in
      let message = new_request d.next_id method raw in
      (
        record d {
          next_id = u64 (d.next_id + 1);
          pending = insert (id_key codec message.id) call d.pending;
          next_channel = d.next_channel + 1;
        },
        ok (call, message),
      )

  -- The parameters come with the outcome of their encoding, a foreign error where it failed.
  unfoldable pub new_pending_call :
      Text
      → Result DispatchError Text
      → CallMetadata
      → Dispatcher
      → Dispatcher × Result DispatchError (PendingCall × RpcMessage)
  new_pending_call method params metadata d =
      if d.closed then (d, err d.close_err) else prepare_call method metadata d params

abbrev withdraw : Text → Option PendingCall → Dispatcher → Dispatcher × Bool
withdraw key none d = (d, false)
withdraw key (some call) d =
    (record d { pending = remove key d.pending; withdrawn = call.result ∷ d.withdrawn }, true)

unfoldable pub remove_pending : ℕ → Dispatcher → Dispatcher × Bool
remove_pending id d = withdraw (must_id id) (lookup (must_id id) d.pending) d
