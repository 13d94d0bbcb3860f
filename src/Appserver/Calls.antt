-- ===== src/Appserver/Calls.antt =====
-- gateway/internal/appserver/dispatcher.go: Call, SendRequest and Notify. Other goroutines run
-- between the beginning of a call and its end, so these are two functions.
use codex_runtime.Base.{
  true, false, Text, Bool, Option, none, some, List, [], ◌∷◌, if◌then◌else◌, Result, ok, err,
}
use codex_runtime.Appserver.Rpc.{Codec, RpcMessage, new_notification}
use codex_runtime.Appserver.Dispatcher.{
  DispatchError, CallMetadata, PendingCall, CallResult, Dispatcher, close_with_error,
  new_pending_call, remove_pending,
}
use codex_runtime.Appserver.Requests.{WriteOutcome, write_message_context, close_error}

abbrev drop_unwritten :
    PendingCall → Dispatcher → Option DispatchError → Dispatcher × Result DispatchError PendingCall
drop_unwritten call d (some e) = ((remove_pending call.id d).0, err e)
drop_unwritten call d none = (d, ok call)

abbrev write_call :
    WriteOutcome
    → Dispatcher
    → Result DispatchError (PendingCall × RpcMessage)
    → Dispatcher × Result DispatchError PendingCall
write_call outcome d (err e) = (d, err e)
write_call outcome d (ok (call, message)) =
    let (written, error) = write_message_context message outcome d in
    drop_unwritten call written error

-- Call and SendRequest up to the wait for a result.
unfoldable pub begin_call :
    Codec
    → Text
    → Result DispatchError Text
    → CallMetadata
    → WriteOutcome
    → Dispatcher
    → Dispatcher × Result DispatchError PendingCall
begin_call codec method params metadata outcome d =
    let (begun, call) = new_pending_call codec method params metadata d in
    write_call outcome begun call

-- Which case of the select at the end of Call is taken.
pub data Waiting : Type 0 where
  received : Waiting
  context_done : DispatchError → Waiting
  dispatcher_done : Waiting

abbrev first_or : CallResult → List CallResult → CallResult
first_or other [] = other
first_or other (result ∷ results) = result

abbrev first_result : List CallResult → Option CallResult
first_result [] = none
first_result (result ∷ results) = some result

abbrev after_removal : PendingCall → DispatchError → Dispatcher → Bool → Option CallResult
after_removal call e d true = some (err e)
after_removal call e d false = some (first_or (err e) (d.results call.result))

-- The end of Call; without a result, the case that is asked for does not come about.
unfoldable pub finish_call : PendingCall → Waiting → Dispatcher → Dispatcher × Option CallResult
finish_call call received d = (d, first_result (d.results call.result))
finish_call call (context_done e) d =
    let (removed, found) = remove_pending call.id d in
    if call.close_on_uncertain
    then (close_with_error e d, some (err e))
    else (removed, after_removal call e removed found)
finish_call call dispatcher_done d = (d, if d.closed then some (err (close_error d)) else none)

abbrev unwait : Dispatcher → Result DispatchError PendingCall → Dispatcher × Option DispatchError
unwait d (err e) = (d, some e)
unwait d (ok call) = ((remove_pending call.id d).0, none)

-- SendRequest does not wait for a result.
unfoldable pub send_request :
    Codec
    → Text
    → Result DispatchError Text
    → CallMetadata
    → WriteOutcome
    → Dispatcher
    → Dispatcher × Option DispatchError
send_request codec method params metadata outcome d =
    let (sent, call) = begin_call codec method params metadata outcome d in unwait sent call

unfoldable pub notify :
    Text → Result DispatchError Text → WriteOutcome → Dispatcher → Dispatcher × Option DispatchError
notify method (err e) outcome d = (d, some e)
notify method (ok params) outcome d =
    write_message_context (new_notification method params) outcome d
