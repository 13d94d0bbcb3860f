-- ===== src/Chatruntime/Streams.antt =====
-- gateway/internal/chatruntime/stream.go: the stream that a client reads, chatEventStream.
use codex_runtime.Base.{ℕ, Bool, true, Option, none, some, List, [], ◌∷◌, max, leb, if◌then◌else◌}
use codex_runtime.Domain.Chats.{ChatEvent, StreamChatEventsCommand}
use codex_runtime.Chatstate.Types.{EventRecord, RunScope}
use codex_runtime.Chatstate.Store.{
  Channel, ChannelStatus, open_channel, closed_channel, panicked, unmade, Store,
}
use codex_runtime.Chatstate.Channels.{unsubscribe}
use codex_runtime.Chatruntime.Messages.{
  CursorCodec, StreamChatEventsMessage, event_record_message, event_status,
}

-- `live` is the subscriber whose channel it is, and `close_func` the one that it unsubscribes. The
-- command is what the closure `statusFunc` holds; the session group of `scope` is the command's.
pub record ChatEventStream : Type 0 where
  pub replay : List StreamChatEventsMessage
  pub live : Option ℕ
  pub scope : RunScope
  pub last_sent_id : ℕ
  pub closed_once : Bool
  pub close_func : Option ℕ
  pub command : StreamChatEventsCommand

-- What Next returns, where `waiting` is a receive that finds nothing: it ends with the context's
-- error or when the channel has something.
pub data Received : Type 0 where
  message : StreamChatEventsMessage → Received
  eof waiting : Received

abbrev sent_id : ℕ → Option ChatEvent → ℕ
sent_id last none = last
sent_id last (some e) = max last e.event_id

-- The loop of receives: the first event above the last that was sent, and the queue after it.
unfoldable pub next_live : ℕ → List EventRecord → Option EventRecord × List EventRecord
next_live last [] = (none, [])
next_live last (e ∷ queue) =
    let later = next_live last queue in if leb e.event_id last then later else (some e, queue)

abbrev at_end : ChannelStatus → Received
at_end open_channel = waiting
at_end closed_channel = eof
at_end panicked = eof
at_end unmade = waiting

module _ (codec : CursorCodec) where
  unfoldable pub live_message : ChatEventStream → EventRecord → StreamChatEventsMessage
  live_message s e =
      event_record_message codec s.scope.scope.session_group_id e (event_status s.command e)

  abbrev pub received :
      ChatEventStream
      → Channel
      → Option EventRecord × List EventRecord
      → (ChatEventStream × Channel) × Received
  received s c (none, queue) = ((s, record c { queue = queue }), at_end c.status)
  received s c (some e, queue) = (
    (record s { last_sent_id = e.event_id }, record c { queue = queue }),
    message (live_message s e),
  )

  -- Next, with the channel that `live` is.
  unfoldable pub next_message :
      ChatEventStream
      → List StreamChatEventsMessage
      → Channel
      → (ChatEventStream × Channel) × Received
  next_message s (m ∷ replay) c =
      ((record s { replay = replay; last_sent_id = sent_id s.last_sent_id m.event }, c), message m)
  next_message s [] c = elim s.live [
    | none ↦ ((s, c), eof)
    | some id ↦ received s c (next_live s.last_sent_id c.queue)
  ]

  unfoldable pub next : ChatEventStream → Channel → (ChatEventStream × Channel) × Received
  next s c = next_message s s.replay c

abbrev closing : RunScope → Option ℕ → Store → Store
closing scope none store = store
closing scope (some id) store = unsubscribe scope id store

-- Close
unfoldable pub close_stream : ChatEventStream → Store → ChatEventStream × Store
close_stream s store =
    if s.closed_once
    then (s, store)
    else (record s { closed_once = true }, closing s.scope s.close_func store)
