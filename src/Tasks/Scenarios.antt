-- ===== src/Tasks/Scenarios.antt =====
-- A task whose log keeps two events, and a subscriber.
use codex_runtime.Base.{ℕ, ◌≡◌, refl, List, [], ◌∷◌, length, ok, arith}
use codex_runtime.Tasks.Events.{
  TaskEvent, Task, StreamTaskCommand, after_event_id, append_event_messages, notice_message,
  replay_cursor_evicted, later_than, replay_messages, append_event, enforce_replay_limits,
  enforce_from,
}
use codex_runtime.Tasks.Logs.{IsLog}
use codex_runtime.Tasks.Histories.{Follows, append_all, append_all-Follows}
use codex_runtime.Tasks.Cursors.{replay_messages-served, replay_messages-noticed}
use codex_runtime.Tasks.Delivery.{
  Action, sends, closes, receives, new_delivery, act_all, IsGapless, act_all-IsGapless,
}

abbrev ten : TaskEvent ℕ → ℕ
ten e = 10

abbrev new_task : Task ℕ
new_task = record {
  id = 1 ∷ [];
  session_group_id = 2 ∷ [];
  workspace_id = 3 ∷ [];
  thread_id = [];
  turn_id = [];
  next_event_id = 0;
  events = [];
  retained_event_bytes = 0;
  start_evicted_before_event_id = 0;
}

abbrev three : List (ℕ × ℕ)
three = (5, 100) ∷ (6, 101) ∷ (7, 102) ∷ []

abbrev published : Task ℕ × List (TaskEvent ℕ)
published = append_all ten 2 100 three new_task

abbrev cursor_at : ℕ → StreamTaskCommand
cursor_at after = record { task_id = 1 ∷ []; cursor_kind = after_event_id; after_event_id = after }

published-next : published.0.next_event_id ≡ 3
unfolding append_all append_event enforce_replay_limits enforce_from
published-next = refl

published-start : published.0.start_evicted_before_event_id ≡ 1
unfolding append_all append_event enforce_replay_limits enforce_from
published-start = refl

published-count : length published.0.events ≡ 2
unfolding append_all append_event enforce_replay_limits enforce_from
published-count = refl

append_all-Follows_example : IsLog ten 2 100 published.0 × Follows ten published.1 published.0
append_all-Follows_example =
    append_all-Follows ten 2 100 three new_task (omega arith) (refl, refl, refl, refl)

replay_messages-served_example :
    replay_messages published.0 (cursor_at 2)
    ≡ ok (append_event_messages [] (later_than 2 published.1))
replay_messages-served_example =
    replay_messages-served ten 2 100 three new_task (cursor_at 2) (omega arith)
      (refl, refl, refl, refl) refl (omega (arith, published-start)) (omega (arith, published-next))

replay_messages-noticed_example :
    replay_messages published.0 (cursor_at 1)
    ≡ ok (
        append_event_messages
          (notice_message published.0 replay_cursor_evicted ∷ [])
          (later_than 1 published.1))
replay_messages-noticed_example =
    replay_messages-noticed ten 2 100 three new_task (cursor_at 1) (omega arith)
      (refl, refl, refl, refl) refl (omega (arith, published-start))
      (omega (arith, published-count))

abbrev actions : List (Action ℕ)
actions = sends 1 ∷ sends 2 ∷ receives ∷ closes ∷ sends 3 ∷ closes ∷ []

act_all-IsGapless_example : IsGapless (act_all new_delivery actions)
act_all-IsGapless_example = act_all-IsGapless actions
