-- ===== src/Tasks/Events.antt =====
-- gateway/internal/tasks/stream.go: the event log of one task, its limits and its replay. An
-- event's payload is never inspected here, so its type is a parameter.
use codex_runtime.Base.{
  ℕ, ◌+◌, ◌-◌, Text, u64, Bool, false, ◌&&◌, ◌||◌, Option, none, some, List, [], ◌∷◌, ◌++◌, length,
  map, keep_if, ltb, ◌==◌, if◌then◌else◌, Result, ok, err, String,
}
use codex_runtime.Domain.{GatewayError, GatewayErrorReason, invalid_argument}

pub record TaskEvent (Payload : Type 0) : Type 0 where
  pub event_id : ℕ
  pub task_id : Text
  pub session_group_id : Text
  pub workspace_id : Text
  pub thread_id : Text
  pub turn_id : Text
  pub created_at_unix_ms : ℕ
  pub payload : Payload

-- The fields of the task that its event log needs.
pub record Task (Payload : Type 0) : Type 0 where
  pub id : Text
  pub session_group_id : Text
  pub workspace_id : Text
  pub thread_id : Text
  pub turn_id : Text
  pub next_event_id : ℕ
  pub events : List (TaskEvent Payload)
  pub retained_event_bytes : ℕ
  pub start_evicted_before_event_id : ℕ

pub data ReplayNoticeCode : Type 0 where
  replay_start_evicted replay_cursor_evicted : ReplayNoticeCode

pub record ReplayNotice : Type 0 where
  pub code : ReplayNoticeCode
  pub message : String
  pub oldest_buffered_event_id : ℕ
  pub newest_buffered_event_id : ℕ
  pub from_start_available : Bool
  pub start_evicted_before_event_id : ℕ

pub record StreamTaskMessage (Payload : Type 0) : Type 0 where
  pub session_group_id : Text
  pub event : Option (TaskEvent Payload)
  pub replay_notice : Option ReplayNotice

-- `other_cursor` is any other text of the Go string type.
pub data StreamCursorKind : Type 0 where
  from_start after_event_id other_cursor : StreamCursorKind

pub record StreamTaskCommand : Type 0 where
  pub task_id : Text
  pub cursor_kind : StreamCursorKind
  pub after_event_id : ℕ

unfoldable pub invalid_cursor : Text → Text → GatewayError
invalid_cursor session_group_id task_id = record {
  code = invalid_argument;
  details = record {
    reason = GatewayErrorReason.invalid_cursor;
    display_message = "invalid stream cursor";
    task_id = task_id;
    session_group_id = session_group_id;
    client_message_id = [];
    client_response_id = [];
    pending_request_id = [];
    thread_id = [];
    retryable = false;
  };
}

abbrev pub replay_notice_message : ReplayNoticeCode → String
replay_notice_message replay_start_evicted =
    "the beginning of the task event log is no longer buffered"
replay_notice_message replay_cursor_evicted =
    "the requested task event cursor is no longer buffered"

module _ {Payload : Type 0} where
  unfoldable pub oldest_buffered_event_id : List (TaskEvent Payload) → ℕ
  oldest_buffered_event_id [] = 0
  oldest_buffered_event_id (e ∷ events) = e.event_id

  unfoldable pub newest_buffered_event_id : List (TaskEvent Payload) → ℕ
  newest_buffered_event_id [] = 0
  newest_buffered_event_id (e ∷ []) = e.event_id
  newest_buffered_event_id (e ∷ (f ∷ events)) = newest_buffered_event_id (f ∷ events)

  abbrev pub event_message : TaskEvent Payload → StreamTaskMessage Payload
  event_message e = record {
    session_group_id = e.session_group_id;
    event = some e;
    replay_notice = none;
  }

  unfoldable pub append_event_messages :
      List (StreamTaskMessage Payload) → List (TaskEvent Payload) → List (StreamTaskMessage Payload)
  append_event_messages messages events = messages ++ map event_message events

  unfoldable pub notice_message : Task Payload → ReplayNoticeCode → StreamTaskMessage Payload
  notice_message task code = record {
    session_group_id = task.session_group_id;
    event = none;
    replay_notice = some (record {
      code = code;
      message = replay_notice_message code;
      oldest_buffered_event_id = oldest_buffered_event_id task.events;
      newest_buffered_event_id = newest_buffered_event_id task.events;
      from_start_available = task.start_evicted_before_event_id == 0;
      start_evicted_before_event_id = task.start_evicted_before_event_id;
    });
  }

  unfoldable pub later_than : ℕ → List (TaskEvent Payload) → List (TaskEvent Payload)
  later_than after = keep_if (λ e. ltb after e.event_id)

  -- `len(task.events) > 0 && command.AfterEventID < task.events[0].EventID`
  unfoldable pub is_evicted : ℕ → List (TaskEvent Payload) → Bool
  is_evicted after [] = false
  is_evicted after (e ∷ events) = ltb after e.event_id

  unfoldable pub replay_from_start : Task Payload → List (StreamTaskMessage Payload)
  replay_from_start task =
      if task.start_evicted_before_event_id == 0
      then append_event_messages [] task.events
      else append_event_messages (notice_message task replay_start_evicted ∷ []) task.events

  unfoldable pub replay_after :
      ℕ → Task Payload → Result GatewayError (List (StreamTaskMessage Payload))
  replay_after after task =
      if ltb task.next_event_id after
      then err (invalid_cursor task.session_group_id task.id)
      else if is_evicted after task.events
      then ok (append_event_messages (notice_message task replay_cursor_evicted ∷ []) task.events)
      else ok (append_event_messages [] (later_than after task.events))

  unfoldable pub replay_messages :
      Task Payload → StreamTaskCommand → Result GatewayError (List (StreamTaskMessage Payload))
  replay_messages task command = elim command.cursor_kind [
    | from_start ↦ ok (replay_from_start task)
    | after_event_id ↦ replay_after command.after_event_id task
    | other_cursor ↦ err (invalid_cursor task.session_group_id task.id)
  ]

  abbrev pub event_of : ℕ → Task Payload → Payload → TaskEvent Payload
  event_of now_ms task payload = record {
    event_id = u64 (task.next_event_id + 1);
    task_id = task.id;
    session_group_id = task.session_group_id;
    workspace_id = task.workspace_id;
    thread_id = task.thread_id;
    turn_id = task.turn_id;
    created_at_unix_ms = now_ms;
    payload = payload;
  }

  -- `size` is `retainedEventSize`, the length of the event's encoding by json.Marshal, or 0.
  module _ (size : TaskEvent Payload → ℕ) where
    -- The loop of `enforceReplayLimitsLocked`, over the fields that it changes. The byte count is
    -- raised to 0 where it falls below.
    unfoldable pub enforce_from :
        ℕ → ℕ → List (TaskEvent Payload) → ℕ → ℕ → List (TaskEvent Payload) × ℕ × ℕ
    enforce_from max_events max_bytes [] bytes start = ([], bytes, start)
    enforce_from max_events max_bytes (e ∷ events) bytes start =
        let rest = enforce_from max_events max_bytes events (bytes - size e) e.event_id in
        if ltb max_events (length (e ∷ events))
          || (ltb 1 (length (e ∷ events)) && ltb max_bytes bytes)
        then rest
        else (e ∷ events, bytes, start)

    unfoldable pub enforce_replay_limits : ℕ → ℕ → Task Payload → Task Payload
    enforce_replay_limits max_events max_bytes task =
        let (events, bytes, start) =
          enforce_from max_events max_bytes task.events task.retained_event_bytes
            task.start_evicted_before_event_id in
        record task {
          events = events;
          retained_event_bytes = bytes;
          start_evicted_before_event_id = start;
        }

    -- `appendEventLocked`, but for the list of subscribers that it returns.
    unfoldable pub append_event :
        ℕ → ℕ → ℕ → Payload → Task Payload → Task Payload × TaskEvent Payload
    append_event max_events max_bytes now_ms payload task =
        let event = event_of now_ms task payload in
        (
          enforce_replay_limits max_events max_bytes (record task {
            next_event_id = event.event_id;
            events = task.events ++ (event ∷ []);
            retained_event_bytes = task.retained_event_bytes + size event;
          }),
          event,
        )
