-- ===== src/Chatruntime/Positions.antt =====
-- gateway/internal/chatruntime/stream.go: what a stream says of the events of its run.
use codex_runtime.Base.{
  ℕ, ◌<◌, ◌==◌, ◌≡◌, refl, Text, text_eq, not, ◌&&◌, ◌⊎◌, inl, inr, Option, none, is_some, List,
  ◌∷◌, length, Result, ok, err, arith, Bool-cases, if-cases, ap,
}
use codex_runtime.Domain.{GatewayError}
use codex_runtime.Domain.Chats.{StreamChatEventsCommand, ChatReplayNotice}
use codex_runtime.Chatstate.Types.{
  EventRecord, ReplayError, ReplayResult, LimitOptions, RunScope, RunRecord,
}
use codex_runtime.Chatstate.Types as Types
use codex_runtime.Chatstate.Keys.{replay_key}
use codex_runtime.Chatstate.Store.{Store, new_store}
use codex_runtime.Chatstate.Channels.{subscribe}
use codex_runtime.Chatstate.Replay.{newer}
use codex_runtime.Chatstate.Steps.Calls.{Call, run}
use codex_runtime.Chatstate.Buffers.Log.{
  logged, id_limit, Follows, SameEvents-keeps, SameEvents-Follows,
}
use codex_runtime.Chatstate.Buffers.Histories.{run-new-Follows}
use codex_runtime.Chatstate.Buffers.Complete.{Complete, replay-Complete}
use codex_runtime.Chatruntime.Messages.{
  CursorCodec, StreamChatEventsMessage, notice_message, replay_unavailable_message,
  replay_notice_message,
}
use codex_runtime.Chatruntime.Streams.{ChatEventStream}
use codex_runtime.Chatruntime.Starts.{Start, chat_of, run_of, cursor_of}
use codex_runtime.Chatruntime.Opening.{
  event_messages, failed_messages, replay_messages, after_replay, replay_into, with_live, open_run,
}

-- The run that a stream is about.
abbrev pub run_scope_of : StreamChatEventsCommand → Start → RunScope
run_scope_of command start = record { scope = chat_of command; run_id = start.run_id }

module _ (codec : CursorCodec) (command : StreamChatEventsCommand) where
  -- The messages begin with a notice.
  abbrev Notices : List StreamChatEventsMessage → Type 0
  Notices messages =
      (notice : ChatReplayNotice) × (rest : List StreamChatEventsMessage) × (messages
        ≡ notice_message command notice ∷ rest)

  -- A stream that is opened replays exactly the events, unless it begins with a notice.
  abbrev pub IsAnnounced : List EventRecord → Result GatewayError ChatEventStream → Type 0
  IsAnnounced events (err e) = Unit
  IsAnnounced events (ok stream) =
      (stream.replay ≡ event_messages codec command events) ⊎ Notices stream.replay

  failed_messages-IsAnnounced :
      (scope : RunScope) (live : Option ℕ) (s : Store) (events : List EventRecord) (epoch : Text)
      (kind : Types.ReplayFailureKind)
      → IsAnnounced events
          (after_replay codec command scope live s (failed_messages command epoch kind)).1
  unfolding replay_unavailable_message replay_notice_message
  failed_messages-IsAnnounced scope live s events epoch Types.cursor_evicted = inr (_, _, refl)
  failed_messages-IsAnnounced scope live s events epoch Types.out_of_range = tt
  failed_messages-IsAnnounced scope live s events epoch Types.unavailable_after_restart =
      inr (_, _, refl)

  replay_messages-IsAnnounced :
      (scope : RunScope) (live : Option ℕ) (s : Store) (log : List EventRecord) (start : Start)
      (epoch : Text) (result : Result ReplayError ReplayResult)
      → Complete (cursor_of command start) log result
      → IsAnnounced
          (newer start.after_event_id log)
          (after_replay codec command scope live s
            (replay_messages codec command start.after_event_id epoch result)).1
  unfolding replay_messages replay_notice_message
  replay_messages-IsAnnounced scope live s log start epoch (err e) c =
      failed_messages-IsAnnounced scope live s (newer start.after_event_id log) epoch e.kind
  replay_messages-IsAnnounced scope live s log start epoch (ok r) c =
      elim (Bool-cases (not r.from_start_available && start.after_event_id == 0)) [
        | inl p ↦ rw p (inr (_, _, refl))
        | inr p ↦ rw p (inl (ap (event_messages codec command) (c (λ z. ground (arith, p, z)))))
      ]

  replay_into-IsAnnounced :
      (c u : ℕ) (start : Start) (scope : RunScope) (live : Option ℕ) (log : List EventRecord)
      (s : Store)
      → Follows (replay_key (run_scope_of command start)) log s
      → IsAnnounced
          (newer start.after_event_id log)
          (replay_into codec c u command start scope live s).1
  unfolding replay_into
  replay_into-IsAnnounced c u start scope live log s v =
      replay_messages-IsAnnounced scope live _ log start _ _
        (replay-Complete c u (cursor_of command start) log s v)

  with_live-IsAnnounced :
      (c u : ℕ) (start : Start) (scope : RunScope) (log : List EventRecord) (s : Store)
      (live : Result GatewayError (Option ℕ))
      → Follows (replay_key (run_scope_of command start)) log s
      → IsAnnounced
          (newer start.after_event_id log)
          (with_live codec c u command start scope s live).1
  with_live-IsAnnounced c u start scope log s (err e) v = tt
  with_live-IsAnnounced c u start scope log s (ok live) v =
      replay_into-IsAnnounced c u start scope live log s v

  -- After fewer than 2^64 calls of a new store, in any order: a stream that is opened on a run, from any
  -- cursor, 0 included, and followed live or not, replays exactly the messages of the events that were
  -- appended to the run and whose ids are above the cursor, in the order in which they were appended,
  -- unless its first message is a replay notice. So a stream never leaves out an event unannounced.
  pub open_run-IsAnnounced :
      (fmt : ℕ → Text) (now : ℕ) (epoch : Text) (limits : LimitOptions) (cs : List Call) (c u : ℕ)
      (start : Start) (active : Option RunRecord)
      → length cs < id_limit
      → IsAnnounced
          (newer start.after_event_id
            (logged (replay_key (run_scope_of command start)) (new_store fmt now epoch limits) cs))
          (open_run codec c u command start active (run (new_store fmt now epoch limits) cs)).1
  unfolding open_run
  open_run-IsAnnounced fmt now epoch limits cs c u start active small =
      let s = run (new_store fmt now epoch limits) cs in
      let key = replay_key (run_scope_of command start) in
      let log = logged key (new_store fmt now epoch limits) cs in
      let v = run-new-Follows fmt now epoch limits key cs small in
      let scope = run_scope_of command start in
      let t = (subscribe scope s).0 in
      let w =
        SameEvents-Follows key log s t
          ((SameEvents-keeps s).subscribed scope s (record { replay = refl; next = refl })) v in
      if-cases
        (λ (r : Store × Result GatewayError ChatEventStream).
          IsAnnounced (newer start.after_event_id log) r.1)
        (is_some active && text_eq (run_of active) start.run_id) _ _
        (λ p. with_live-IsAnnounced c u start scope log t (subscribe scope s).1 w)
        (λ p. replay_into-IsAnnounced c u start scope none log s v)
