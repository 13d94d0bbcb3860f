-- ===== src/Chatstate/Scenarios/Replays.antt =====
-- Histories of appended events, and the keys of their runs.
use codex_runtime.Base.{
  ℕ, ◌<◌, ◌≡◌, refl, Text, text_eq, some, [], ◌∷◌, lookup, insert, remove, refine, arith, Holds,
  subst, sym, inl, ok, ◌+◌, All,
}
use codex_runtime.Chatstate.Keys.{active_run_key, replay_key, validate_run_scope, safe_label}
use codex_runtime.Chatstate.Store.{Store, ReplayBuffer, normalize_limits, new_store, cleanup}
use codex_runtime.Chatstate.Channels.{publish_event, publish_each, put_ids}
use codex_runtime.Chatstate.Replay.{
  over_limits, enforce_from, enforce_replay_limits, new_event, add_event, store_event,
  append_checked, append_event, replay, newer, buffer_of,
}
use codex_runtime.Chatstate.Steps.Calls.{step, run}
use codex_runtime.Chatstate.Capacity.{IsCapped, run-IsCapped}
use codex_runtime.Chatstate.Keys.Injective.{IsPlain, replay_key-injective, pending_key-injective}
use codex_runtime.Chatstate.Buffers.Bounds.{HasBounds, IsSized, run-HasBounds}
use codex_runtime.Chatstate.Buffers.Log.{Follows, logged}
use codex_runtime.Chatstate.Buffers.Histories.{run-new-Follows}
use codex_runtime.Chatstate.Buffers.Eviction.{int64_limit}
use codex_runtime.Chatstate.Buffers.Resuming.{replay_resumes}
use codex_runtime.Chatstate.Types.{ReplayResult}
use codex_runtime.Chatstate.Scenarios.{
  s₁, few, epoch_text, empty_store, chat, appends, events, cursor_at, event_at,
}

run-new-Follows_example :
    Follows
      (replay_key (chat 2))
      (logged (replay_key (chat 2)) empty_store events)
      (run empty_store events)
run-new-Follows_example =
    run-new-Follows epoch_text s₁ [] few (replay_key (chat 2)) events (omega arith)

few-roomy : (normalize_limits few).replay_max_bytes + 10 < int64_limit
unfolding normalize_limits
few-roomy = omega arith

events-IsSized : All (IsSized 10) events
events-IsSized = ground arith

run-HasBounds_example : HasBounds 10 (run empty_store events)
run-HasBounds_example = run-HasBounds epoch_text s₁ [] few 10 events few-roomy events-IsSized

run-IsCapped_example : IsCapped (run empty_store events)
run-IsCapped_example = run-IsCapped epoch_text s₁ [] few events

-- The second chat's buffer after its first event.
abbrev fresh : ReplayBuffer
fresh = buffer_of (event_at 2 2 ∷ []) 10 0

abbrev two_chats : Store
two_chats = run empty_store (appends 1 ∷ appends 2 ∷ [])

fresh-found : lookup (replay_key (chat 2)) two_chats.replay ≡ some fresh
unfolding run step new_store normalize_limits append_event append_checked store_event add_event
    new_event enforce_replay_limits enforce_from over_limits publish_event publish_each put_ids
    validate_run_scope replay_key active_run_key safe_label lookup insert remove refine text_eq
    cleanup
fresh-found = refl

fresh-epoch : (cursor_at 2 0).epoch ≡ two_chats.epoch
unfolding run step new_store normalize_limits append_event append_checked store_event add_event
    new_event enforce_replay_limits enforce_from over_limits publish_event publish_each put_ids
    validate_run_scope replay_key active_run_key safe_label lookup insert remove refine text_eq
    cleanup
fresh-epoch = refl

fresh-enforced : enforce_replay_limits two_chats.limits s₁ fresh ≡ fresh
unfolding run step new_store normalize_limits append_event append_checked store_event add_event
    new_event enforce_replay_limits enforce_from over_limits publish_event publish_each put_ids
    validate_run_scope replay_key active_run_key safe_label lookup insert remove refine text_eq
    cleanup
fresh-enforced = refl

fresh-held : Holds (event_at 2 2) (enforce_replay_limits two_chats.limits s₁ fresh).events
fresh-held = subst (λ b. Holds (event_at 2 2) b.events) (sym fresh-enforced) (inl refl)

replay_resumes_example :
    (r : ReplayResult) × ((replay s₁ s₁ (cursor_at 2 2) two_chats).1 ≡ ok r)
    × (r.events ≡ newer 2 (logged (replay_key (chat 2)) empty_store (appends 1 ∷ appends 2 ∷ [])))
unfolding new_event
replay_resumes_example =
    replay_resumes epoch_text s₁ [] few (appends 1 ∷ appends 2 ∷ []) s₁ s₁ (cursor_at 2 2) fresh
      (event_at 2 2) (omega arith) fresh-epoch fresh-found fresh-held refl

chat-IsPlain : (n : ℕ) → 0 < n → IsPlain (chat n).scope
chat-IsPlain n h = record {
  session_group_id = ground arith;
  workspace_id = ground arith;
  chat_id = ground arith;
}

replay_key-injective_example : chat 2 ≡ chat 2
replay_key-injective_example =
    replay_key-injective (chat 2) (chat 2) (chat-IsPlain 2 (omega arith))
      (chat-IsPlain 2 (omega arith)) refl

abbrev request_id : Text
request_id = 112 ∷ []

pending_key-injective_example : (chat 2 ≡ chat 2) × (request_id ≡ request_id)
pending_key-injective_example =
    pending_key-injective (chat 2) (chat 2) request_id request_id (chat-IsPlain 2 (omega arith))
      (chat-IsPlain 2 (omega arith)) (ground arith) (ground arith) refl
