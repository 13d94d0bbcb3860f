-- ===== src/Tasks/Subscribers.antt =====
-- gateway/internal/tasks/stream.go: `taskSubscriber`, which its own mutex guards, and the receiving
-- end of its channel in `taskStream.Next`.
use codex_runtime.Base.{
  ℕ, Bool, true, false, Option, none, some, List, [], ◌∷◌, ◌++◌, length, ltb, if◌then◌else◌,
}
use codex_runtime.Chatstate.Store.{ChannelStatus, open_channel, closed_channel, panicked}
use codex_runtime.Chatstate.Channels.{is_open_channel}

abbrev pub stream_subscriber_queue : ℕ
stream_subscriber_queue = 256

-- `status` and `queue` are those of the channel `events`.
pub record TaskSubscriber (Event : Type 0) : Type 0 where
  pub status : ChannelStatus
  pub queue : List Event
  pub closed : Bool

module _ {Event : Type 0} where
  abbrev pub new_subscriber : TaskSubscriber Event
  new_subscriber = record { status = open_channel; queue = []; closed = false }

  -- A close of a channel that is not open panics.
  unfoldable pub close_channel : TaskSubscriber Event → TaskSubscriber Event
  close_channel s = record s {
    status = if is_open_channel s.status then closed_channel else panicked;
  }

  -- The case `s.events <- event`, which panics where the channel is closed.
  unfoldable pub enqueue : Event → TaskSubscriber Event → TaskSubscriber Event
  enqueue event s =
      if is_open_channel s.status
      then record s { queue = s.queue ++ (event ∷ []) }
      else record s { status = panicked }

  unfoldable pub send_event : Event → TaskSubscriber Event → TaskSubscriber Event × Bool
  send_event event s =
      if s.closed
      then (s, false)
      else if ltb (length s.queue) 256
      then (enqueue event s, true)
      else (record (close_channel s) { closed = true }, false)

  unfoldable pub close_subscriber : TaskSubscriber Event → TaskSubscriber Event
  close_subscriber s = if s.closed then s else record (close_channel s) { closed = true }

  abbrev pub next_of : List Event → Option Event × List Event
  next_of [] = (none, [])
  next_of (e ∷ events) = (some e, events)

  -- What `Next` takes from the channel; `none` is the end of the stream where it is closed.
  unfoldable pub receive_event : TaskSubscriber Event → TaskSubscriber Event × Option Event
  receive_event s = let (event, rest) = next_of s.queue in (record s { queue = rest }, event)
