-- ===== src/Appserver/Requests.antt =====
-- gateway/internal/appserver/dispatcher.go: requests and notifications of the app server, answers to
-- its requests, writing, and the loop that reads.
use codex_runtime.Base.{
  Text, text_eq, ascii, Bool, true, false, not, ◌&&◌, Option, none, some, List, [], ◌∷◌, ◌++◌,
  lookup, insert, remove, is_some, if◌then◌else◌, Result, ok, err,
}
use codex_runtime.Appserver.Rpc.{
  Codec, RpcMessage, is_empty, extract_task_id, id_key, server_request_id_from_resolved,
}
use codex_runtime.Appserver.Dispatcher.{
  DispatchError, dispatcher_closed, duplicate_response, duplicate_request_id, invalid_shape,
  ServerRequest, Notification, ServerRequestState, Dispatcher, close_with_error,
}
use codex_runtime.Appserver.Responses.{handle_response, record_provisional_id}

-- How the wait of a send to `requests` or `notifications` ends: the channel takes the value, or
-- somebody closes the dispatcher with an error meanwhile.
pub data Outlet : Type 0 where
  accepted : Outlet
  done : DispatchError → Outlet

-- closeError
unfoldable pub close_error : Dispatcher → DispatchError
close_error d = d.close_err

abbrev pub put_request : ServerRequest → Outlet → Dispatcher → Dispatcher × Option DispatchError
put_request request accepted d = (record d { requests = d.requests ++ (request ∷ []) }, none)
put_request request (done e) d =
    let closed = close_with_error e d in (closed, some (close_error closed))

abbrev pub put_notification : Notification → Outlet → Dispatcher → Dispatcher × Option DispatchError
put_notification n accepted d = (record d { notifications = d.notifications ++ (n ∷ []) }, none)
put_notification n (done e) d =
    let closed = close_with_error e d in (closed, some (close_error closed))

-- completeServerRequest
unfoldable pub complete_server_request : Text → Dispatcher → Dispatcher × Bool
complete_server_request key d =
    if is_some (lookup key d.server_requests)
    then (record d { server_requests = remove key d.server_requests }, true)
    else (d, false)

module _ (codec : Codec) where
  unfoldable pub request_of : RpcMessage → ServerRequest
  request_of message = record {
    id = message.id;
    method = message.method;
    params = message.params;
    task_id = extract_task_id codec message.params;
  }

  unfoldable pub handle_server_request :
      RpcMessage → Outlet → Dispatcher → Dispatcher × Option DispatchError
  handle_server_request message outlet d =
      let request = request_of message in
      let key = id_key codec request.id in
      if d.closed
      then (d, some d.close_err)
      else if is_some (lookup key d.server_requests)
      then (d, some duplicate_request_id)
      else put_request request outlet (record d {
        server_requests =
            insert key (record { request = request; responded = false }) d.server_requests;
      })

  unfoldable pub remove_resolved_server_request : Text → Dispatcher → Dispatcher × Bool
  remove_resolved_server_request params d =
      let id = server_request_id_from_resolved codec params in
      if is_empty id then (d, false) else complete_server_request (id_key codec id) d

  unfoldable pub handle_notification :
      RpcMessage → Outlet → Dispatcher → Dispatcher × Option DispatchError
  handle_notification message outlet d =
      let (bound, metadata) = record_provisional_id codec message d in
      let checked = text_eq message.method (ascii "serverRequest/resolved") in
      let (resolved, matched) =
        if checked then remove_resolved_server_request message.params bound else (bound, false) in
      put_notification
        (record {
          method = message.method;
          params = message.params;
          task_id = metadata.task_id;
          session_group_id = metadata.session_group_id;
          server_request_resolved_checked = checked;
          server_request_resolved_matched = matched;
        })
        outlet resolved

  unfoldable pub handle_message :
      RpcMessage → Outlet → Dispatcher → Dispatcher × Option DispatchError
  handle_message message outlet d =
      if not (is_empty message.method) && not (is_empty message.id)
      then handle_server_request message outlet d
      else if not (is_empty message.method)
      then handle_notification message outlet d
      else if not (is_empty message.id)
      then (handle_response codec message d, none)
      else (d, some invalid_shape)

  abbrev pub answered :
      Text → Option ServerRequestState → Dispatcher → Dispatcher × Option DispatchError
  answered key none d = (d, some dispatcher_closed)
  answered key (some state) d = if state.responded then (d, some duplicate_response) else (
    record d { server_requests = insert key (record state { responded = true }) d.server_requests },
    none,
  )

  -- The first section of `respond`: whether this answer is the one that is written.
  unfoldable pub claim_response : Text → Dispatcher → Dispatcher × Option DispatchError
  claim_response id d = answered (id_key codec id) (lookup (id_key codec id) d.server_requests) d

-- How a write ends: the encoder fails, the context is over before or during the write, the pipe
-- takes the message or fails, or somebody closes the dispatcher meanwhile.
pub data WriteOutcome : Type 0 where
  unencodable over_before over_during pipe_failed done_first : DispatchError → WriteOutcome
  pipe_taken : WriteOutcome

abbrev closing : DispatchError → Dispatcher → Dispatcher × Option DispatchError
closing e d = (close_with_error e d, some e)

unfoldable pub write_message_context :
    RpcMessage → WriteOutcome → Dispatcher → Dispatcher × Option DispatchError
write_message_context message (unencodable e) d = (d, some e)
write_message_context message (over_before e) d = closing e d
write_message_context message (over_during e) d = closing e d
write_message_context message (pipe_failed e) d =
    if d.closed then (d, some d.close_err) else closing e d
write_message_context message pipe_taken d =
    if d.closed
    then (d, some d.close_err)
    else (record d { written = d.written ++ (message ∷ []) }, none)
write_message_context message (done_first e) d =
    let closed = close_with_error e d in (closed, some (close_error closed))

-- A line of the output, as parseRPCLine reads it, or the error that ends the reading.
abbrev pub Line : Type 0
Line = Result DispatchError (RpcMessage × Outlet)

abbrev pub unless_failed : Dispatcher → Option DispatchError → Dispatcher → Dispatcher
unless_failed d (some e) next = close_with_error e d
unless_failed d none next = next

module _ (codec : Codec) where
  abbrev complete_written :
      Text → Dispatcher → Option DispatchError → Dispatcher × Option DispatchError
  complete_written id d (some e) = (d, some e)
  complete_written id d none = ((complete_server_request (id_key codec id) d).0, none)

  abbrev write_claimed :
      Text
      → RpcMessage
      → WriteOutcome
      → Dispatcher
      → Option DispatchError
      → Dispatcher × Option DispatchError
  write_claimed id message outcome d (some e) = (d, some e)
  write_claimed id message outcome d none =
      let (w, error) = write_message_context message outcome d in complete_written id w error

  unfoldable pub respond :
      Text → RpcMessage → WriteOutcome → Dispatcher → Dispatcher × Option DispatchError
  respond id message outcome d =
      let (claimed, error) = claim_response codec id d in
      write_claimed id message outcome claimed error

  -- `readLoop` over the lines that there are; it ends at the first error, and an output that ends
  -- is the error `dispatcher_closed`.
  unfoldable pub read_loop : List Line → Dispatcher → Dispatcher
  read_loop [] d = close_with_error dispatcher_closed d
  read_loop (err e ∷ lines) d = close_with_error e d
  read_loop (ok (message, outlet) ∷ lines) d =
      let (next, error) = handle_message codec message outlet d in
      unless_failed next error (read_loop lines next)
