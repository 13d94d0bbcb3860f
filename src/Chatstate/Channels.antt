-- ===== src/Chatstate/Channels.antt =====
-- gateway/internal/chatstate/store.go: `Subscribe`, `publishEventLocked` and
-- `closeSubscribersLocked`, over channels whose misuse would panic.
use codex_runtime.Base.{
  ℕ, ◌+◌, ◌||◌, Text, text_eq, Bool, true, false, not, Option, none, some, List, [], ◌∷◌, ◌++◌, Map,
  lookup, insert, remove, length, ltb, ◌==◌, if◌then◌else◌, u64, Result, ok, err,
}
use codex_runtime.Domain.{GatewayError}
use codex_runtime.Chatstate.Types.{RunScope, RunRecord, EventRecord}
use codex_runtime.Chatstate.Keys.{
  active_run_key, replay_key, validate_run_scope, is_terminal_run_state,
}
use codex_runtime.Chatstate.Store.{
  Channel, ChannelStatus, open_channel, closed_channel, panicked, Store, default_subscriber_queue,
}

abbrev closed_status : ChannelStatus → ChannelStatus
closed_status open_channel = closed_channel
closed_status _ = panicked

-- close(ch): a channel is closed once.
unfoldable pub close : Channel → Channel
close c = record c { status = closed_status c.status }

abbrev pub is_open_channel : ChannelStatus → Bool
is_open_channel open_channel = true
is_open_channel _ = false

-- ch <- event, where the buffer has room.
unfoldable pub send : EventRecord → Channel → Channel
send event c =
    if is_open_channel c.status
    then record c { queue = c.queue ++ (event ∷ []) }
    else record c { status = panicked }

unfoldable pub has_room : Channel → Bool
has_room c = ltb (length c.queue) c.capacity

unfoldable pub set_channel : ℕ → Channel → (ℕ → Channel) → ℕ → Channel
set_channel id c channels = λ j. if j == id then c else channels j

abbrev pub without : ℕ → List ℕ → List ℕ
without id [] = []
without id (j ∷ ids) = let rest = without id ids in if j == id then rest else j ∷ rest

abbrev pub contains : ℕ → List ℕ → Bool
contains id [] = false
contains id (j ∷ ids) = j == id || contains id ids

abbrev pub ids_of : Option (List ℕ) → List ℕ
ids_of none = []
ids_of (some ids) = ids

-- `s.subscribers[key] = ids`, with an empty map deleted from its parent.
unfoldable pub put_ids : Text → List ℕ → Map (List ℕ) → Map (List ℕ)
put_ids key [] m = remove key m
put_ids key (id ∷ ids) m = insert key (id ∷ ids) m

-- The loop over the subscribers of a run: those that stay, and the channels afterwards.
unfoldable pub publish_each : EventRecord → List ℕ → (ℕ → Channel) → List ℕ × (ℕ → Channel)
publish_each event [] channels = ([], channels)
publish_each event (id ∷ ids) channels =
    let c = channels id in
    let (kept, after) =
      publish_each event ids
        (set_channel id (if has_room c then send event c else close c) channels) in
    (if has_room c then id ∷ kept else kept, after)

unfoldable pub publish_event : Text → EventRecord → Store → Store
publish_event key event s =
    let (kept, after) = publish_each event (ids_of (lookup key s.subscribers)) s.channels in
    record s { subscribers = put_ids key kept s.subscribers; channels = after }

unfoldable pub close_each : List ℕ → (ℕ → Channel) → ℕ → Channel
close_each [] channels = channels
close_each (id ∷ ids) channels = close_each ids (set_channel id (close (channels id)) channels)

unfoldable pub close_subscribers : Text → Store → Store
close_subscribers key s = record s {
  subscribers = remove key s.subscribers;
  channels = close_each (ids_of (lookup key s.subscribers)) s.channels;
}

-- Whether a subscriber would see more events of the run.
unfoldable pub is_live : RunScope → Option RunRecord → Bool
is_live scope none = false
is_live scope (some r) = not (not (text_eq r.run_id scope.run_id) || is_terminal_run_state r.state)

abbrev queue_size : ℕ → ℕ
queue_size n = if n == 0 then default_subscriber_queue else n

-- The subscriber's id stands for the channel and for the `unsubscribe` that are returned; `none`
-- is the nil channel.
unfoldable pub subscribe : RunScope → Store → Store × Result GatewayError (Option ℕ)
subscribe scope s = elim (validate_run_scope scope) [
  | some e ↦ (s, err e)
  | none ↦
      let id = u64 (s.next_subscriber_id + 1) in
      let key = replay_key scope in
      if is_live scope (lookup (active_run_key scope.scope) s.active_runs)
      then (
        record s {
          next_subscriber_id = id;
          subscribers = insert key (id ∷ ids_of (lookup key s.subscribers)) s.subscribers;
          channels =
              set_channel id
                (record {
                  status = open_channel;
                  capacity = queue_size s.limits.subscriber_queue;
                  queue = [];
                })
                s.channels;
        },
        ok (some id),
      )
      else (record s { next_subscriber_id = id }, ok none)
]

-- The closure that `Subscribe` returns.
unfoldable pub unsubscribe : RunScope → ℕ → Store → Store
unsubscribe scope id s = elim (lookup (replay_key scope) s.subscribers) [
  | none ↦ s
  | some ids ↦ record s {
    subscribers = put_ids (replay_key scope) (without id ids) s.subscribers;
    channels =
        if contains id ids then set_channel id (close (s.channels id)) s.channels else s.channels;
  }
]

abbrev next_event : List EventRecord → Option EventRecord × List EventRecord
next_event [] = (none, [])
next_event (e ∷ es) = (some e, es)

-- `<-ch` at the receiving end; `none` is a receive that waits, or one from a closed channel.
unfoldable pub receive : ℕ → Store → Store × Option EventRecord
receive id s =
    let c = s.channels id in
    let (event, rest) = next_event c.queue in
    (record s { channels = set_channel id (record c { queue = rest }) s.channels }, event)
