-- ===== src/Chatruntime/Deliveries.antt =====
-- gateway/internal/chatruntime/stream.go: what a client reads of a stream that joins the replay of a run
-- with its live events, when both bring the events that came between subscribing and replaying.
use codex_runtime.Base.{
  ℕ, zero, suc, ◌+◌, ◌≤◌, ◌<◌, max, ◌≡◌, refl, sym, ap, ◌∙◌, Text, some, List, [], ◌∷◌, ◌++◌,
  length, All, arith, append-nil,
}
use codex_runtime.Domain.Chats.{StreamChatEventsCommand, ChatStatus}
use codex_runtime.Chatstate.Types.{EventRecord}
use codex_runtime.Chatstate.Store.{Channel}
use codex_runtime.Chatstate.Replay.{newer}
use codex_runtime.Chatstate.Buffers.Log.{Rising}
use codex_runtime.Chatruntime.Messages.{
  CursorCodec, StreamChatEventsMessage, event_record_message, event_status, chat_event, bare_event,
}
use codex_runtime.Chatruntime.Streams.{
  ChatEventStream, Received, message, eof, waiting, next, next_message, next_live, live_message,
}
use codex_runtime.Chatruntime.Starts.{chat_of}
use codex_runtime.Chatruntime.Opening.{opened_stream, event_messages}
use codex_runtime.Chatruntime.Orders.{
  top, Rising-top, newer-whole, newer-append, between-top, next_live-stale, All-last,
}

module _ (codec : CursorCodec) where
  abbrev then_more : Received → List StreamChatEventsMessage → List StreamChatEventsMessage
  then_more (message m) rest = m ∷ rest
  then_more eof rest = []
  then_more waiting rest = []

  -- The messages of the first calls of Next, up to one that returns none.
  unfoldable pub deliver : ℕ → ChatEventStream → Channel → List StreamChatEventsMessage
  deliver zero s c = []
  deliver (suc n) s c = let r = next codec s c in then_more r.1 (deliver n r.0.0 r.0.1)

  module _ (command : StreamChatEventsCommand) (run_id : Text) (id : ℕ) where
    abbrev stream_at : ℕ → List StreamChatEventsMessage → ChatEventStream
    stream_at last messages =
        record (opened_stream codec command (record { scope = chat_of command; run_id = run_id })
          (some id) messages) { last_sent_id = last }

    abbrev event_message : EventRecord → StreamChatEventsMessage
    event_message e = event_record_message codec command.session_group_id e (event_status command e)

    chat_event-id :
        (e : EventRecord) (status : ChatStatus) → (chat_event codec e status).event_id ≡ e.event_id
    unfolding chat_event bare_event
    chat_event-id e status = ground arith

    next-replay :
        (last : ℕ) (e : EventRecord) (es : List EventRecord) (c : Channel)
        → next codec (stream_at last (event_messages codec command (e ∷ es))) c ≡ (
          (stream_at (max last e.event_id) (event_messages codec command es), c),
          message (event_message e),
        )
    unfolding next next_message event_messages event_record_message
    next-replay last e es c =
        ap
          (λ k. (
            (stream_at (max last k) (event_messages codec command es), c),
            message (event_message e),
          ))
          (chat_event-id e (event_status command e))

    deliver-message :
        (n : ℕ) (s t : ChatEventStream) (c d : Channel) (m : StreamChatEventsMessage)
        → next codec s c ≡ ((t, d), message m)
        → deliver (suc n) s c ≡ m ∷ deliver n t d
    unfolding deliver
    deliver-message n s t c d m h =
        ap (λ (r : (ChatEventStream × Channel) × Received). then_more r.1 (deliver n r.0.0 r.0.1)) h

    deliver-replay :
        (n last : ℕ) (es : List EventRecord) (c : Channel)
        → deliver (length es + n) (stream_at last (event_messages codec command es)) c
          ≡ event_messages codec command es ++ deliver n (stream_at (top last es) []) c
    unfolding event_messages
    deliver-replay n last [] c =
        ap (λ k. deliver k (stream_at last (event_messages codec command [])) c) (omega arith)
    deliver-replay n last (e ∷ es) c =
        ap (λ k. deliver k (stream_at last (event_messages codec command (e ∷ es))) c) (omega arith)
        ∙ deliver-message (length es + n) _ _ c c _ (next-replay last e es c)
        ∙ ap (λ ms. event_message e ∷ ms) (deliver-replay n (max last e.event_id) es c)

    next-live :
        (last : ℕ) (stale later : List EventRecord) (e : EventRecord) (c : Channel)
        → All (λ e. e.event_id ≤ last) stale
        → last < e.event_id
        → c.queue ≡ stale ++ (e ∷ later)
        → next codec (stream_at last []) c
          ≡ ((stream_at e.event_id [], record c { queue = later }), message (event_message e))
    unfolding next next_message live_message next_live
    next-live last stale later e c old h q =
        ground (arith, next_live-stale last stale (e ∷ later) old)

    deliver-end :
        (n last : ℕ) (stale : List EventRecord) (c : Channel)
        → All (λ e. e.event_id ≤ last) stale
        → c.queue ≡ stale
        → deliver n (stream_at last []) c ≡ []
    unfolding deliver next next_message next_live
    deliver-end zero last stale c old q = refl
    deliver-end (suc n) last stale c old q =
        ground (arith, next_live-stale last stale [] old, append-nil stale)

    deliver-live :
        (n last : ℕ) (stale later : List EventRecord) (c : Channel)
        → All (λ e. e.event_id ≤ last) stale
        → Rising last later
        → length later ≤ n
        → c.queue ≡ stale ++ later
        → deliver n (stream_at last []) c ≡ event_messages codec command later
    unfolding event_messages
    deliver-live n last stale [] c old r h q = deliver-end n last stale c old (q ∙ append-nil stale)
    deliver-live zero last stale (e ∷ later) c old r h q = absurd (omega (arith, h))
    deliver-live (suc n) last stale (e ∷ later) c old r h q =
        deliver-message n _ _ c _ _ (next-live last stale later e c old r.0 q)
        ∙ ap (λ ms. event_message e ∷ ms)
            (deliver-live n e.event_id [] later (record c { queue = later }) tt r.1
              (omega (arith, h)) refl)

    event_messages-append :
        (es fs : List EventRecord)
        → event_messages codec command (es ++ fs)
          ≡ event_messages codec command es ++ event_messages codec command fs
    unfolding event_messages
    event_messages-append [] fs = refl
    event_messages-append (e ∷ es) fs =
        ap (λ ms. event_message e ∷ ms) (event_messages-append es fs)

  -- The log of a run is what it held when the client subscribed, what came until the replay, and what
  -- came later. Its event ids rise, and the client's cursor is below all that came after it subscribed.
  -- Then a stream whose replay holds the events of the log above the cursor at the time of the replay,
  -- and whose channel brings all that came after the subscription, gives its client the message of
  -- each event of the whole log above the cursor, once and in the order of the log, and no other: the
  -- events that came between subscribing and replaying, which are in both, come once.
  pub deliver-newer :
      (command : StreamChatEventsCommand) (run_id : Text) (id after n : ℕ)
      (old between later : List EventRecord) (c : Channel)
      → Rising 0 ((old ++ between) ++ later)
      → All (λ e. after < e.event_id) (between ++ later)
      → c.queue ≡ between ++ later
      → length later ≤ n
      → deliver
          (length (newer after (old ++ between)) + n)
          (opened_stream codec command
            (record { scope = chat_of command; run_id = run_id })
            (some id)
            (event_messages codec command (newer after (old ++ between))))
          c
        ≡ event_messages codec command (newer after ((old ++ between) ++ later))
  deliver-newer command run_id id after n old between later c rising above queue enough =
      let replayed = newer after (old ++ between) in
      let all_newer = newer-whole after later (All-last after between later above) in
      deliver-replay command run_id id n 0 replayed c
      ∙ ap (λ ms. event_messages codec command replayed ++ ms)
          (deliver-live command run_id id n (top 0 replayed) between later c
            (between-top after old between later above)
            (Rising-top after 0 0 (old ++ between) later (omega arith) rising) enough queue)
      ∙ sym (event_messages-append command run_id id replayed later)
      ∙ ap (event_messages codec command) (
          ap (λ es. replayed ++ es) (sym all_newer)
          ∙ sym (newer-append after (old ++ between) later))
