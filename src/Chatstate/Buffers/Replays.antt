-- ===== src/Chatstate/Buffers/Replays.antt =====
-- gateway/internal/chatstate/store.go: what `Replay` leaves in the buffers.
use codex_runtime.Base.{
  refl, ℕ, ◌≡◌, ◌≢◌, subst, ap, sym, some, lookup, lookup-insert, lookup-remove, text_eq,
  text_eq_iff, Text, Result, err, Bool-cases, inl, inr, arith,
}
use codex_runtime.Chatstate.Types.{Cursor, ReplayError, ReplayResult}
use codex_runtime.Chatstate.Keys.{replay_key}
use codex_runtime.Chatstate.Failures.{replay_unavailable_after_restart}
use codex_runtime.Chatstate.Store.{Store, ReplayBuffer}
use codex_runtime.Chatstate.Replay.{
  buffer_or_new, enforce_replay_limits, replay_checked, replay_found, read_enforced, scope_of,
}
use codex_runtime.Chatstate.Buffers.Eviction.{IsEnd, IsEnd-refl, enforce_replay_limits-IsEnd}
use codex_runtime.Chatstate.Buffers.Log.{events_at}

module _ (P : Store × Result ReplayError ReplayResult → Type 0) where
  pub replay_found_cases :
      (now : ℕ) (cursor : Cursor) (b : ReplayBuffer) (s : Store)
      → P (s, err (replay_unavailable_after_restart cursor))
      → P (read_enforced cursor (enforce_replay_limits s.limits now b) s)
      → P (replay_found now cursor b s)
  unfolding replay_found
  replay_found_cases now cursor b s missing found = ground arith

  pub replay_checked_cases :
      (now : ℕ) (cursor : Cursor) (s : Store)
      → P (s, err (replay_unavailable_after_restart cursor))
      → ((b : ReplayBuffer)
          → lookup (replay_key (scope_of cursor)) s.replay ≡ some b
          → P (replay_found now cursor b s))
      → P (replay_checked now cursor s)
  unfolding replay_checked
  replay_checked_cases now cursor s missing found = grind (arith, found)

events_at-read_enforced_self :
    (cursor : Cursor) (b : ReplayBuffer) (key : Text) (s : Store)
    → replay_key (scope_of cursor) ≡ key
    → events_at key (read_enforced cursor b s).0 ≡ b.events
unfolding read_enforced events_at
events_at-read_enforced_self cursor b key s h = ground (
  arith,
  text_eq_iff (replay_key (scope_of cursor)) key,
  lookup-insert (replay_key (scope_of cursor)) key b s.replay,
  lookup-remove (replay_key (scope_of cursor)) key s.replay,
)

events_at-read_enforced_other :
    (cursor : Cursor) (b : ReplayBuffer) (key : Text) (s : Store)
    → replay_key (scope_of cursor) ≢ key
    → events_at key (read_enforced cursor b s).0 ≡ events_at key s
unfolding read_enforced events_at
events_at-read_enforced_other cursor b key s h = ground (
  arith,
  text_eq_iff (replay_key (scope_of cursor)) key,
  lookup-insert (replay_key (scope_of cursor)) key b s.replay,
  lookup-remove (replay_key (scope_of cursor)) key s.replay,
)

-- What a replay leaves of a run's buffer: the end of it, and other runs' buffers whole.
read_enforced-IsEnd :
    (cursor : Cursor) (b : ReplayBuffer) (key : Text) (s : Store)
    → (replay_key (scope_of cursor) ≡ key → IsEnd (events_at key s) b.events)
    → IsEnd (events_at key s) (events_at key (read_enforced cursor b s).0)
read_enforced-IsEnd cursor b key s h =
    elim (Bool-cases (text_eq (replay_key (scope_of cursor)) key)) [
      | inl same ↦
          let p = (text_eq_iff (replay_key (scope_of cursor)) key).0 same in
          subst (IsEnd (events_at key s)) (sym (events_at-read_enforced_self cursor b key s p))
            (h p)
      | inr other ↦
          subst (IsEnd (events_at key s))
            (sym (
              events_at-read_enforced_other cursor b key s
                (λ p. ground (arith, text_eq_iff (replay_key (scope_of cursor)) key))))
            (IsEnd-refl (events_at key s))
    ]

pub events_at-found :
    (key : Text) (b : ReplayBuffer) (s : Store)
    → lookup key s.replay ≡ some b
    → events_at key s ≡ b.events
unfolding events_at
events_at-found key b s h = ap (λ o. (buffer_or_new o).events) h

replay_found-IsEnd :
    (now : ℕ) (cursor : Cursor) (b : ReplayBuffer) (key : Text) (s : Store)
    → lookup (replay_key (scope_of cursor)) s.replay ≡ some b
    → IsEnd (events_at key s) (events_at key (replay_found now cursor b s).0)
replay_found-IsEnd now cursor b key s h =
    replay_found_cases (λ r. IsEnd (events_at key s) (events_at key r.0)) now cursor b s
      (IsEnd-refl (events_at key s))
      (read_enforced-IsEnd cursor (enforce_replay_limits s.limits now b) key s (λ p.
        subst (λ es. IsEnd es (enforce_replay_limits s.limits now b).events)
          (sym (events_at-found key b s (subst (λ k. lookup k s.replay ≡ some b) p h)))
          (enforce_replay_limits-IsEnd s.limits now b)))

-- A replay either fails and changes nothing, or reads the buffer that it finds.
pub replay_checked-IsEnd :
    (now : ℕ) (cursor : Cursor) (key : Text) (s : Store)
    → IsEnd (events_at key s) (events_at key (replay_checked now cursor s).0)
replay_checked-IsEnd now cursor key s =
    replay_checked_cases (λ r. IsEnd (events_at key s) (events_at key r.0)) now cursor s
      (IsEnd-refl (events_at key s)) (λ b h. replay_found-IsEnd now cursor b key s h)

read_enforced-next :
    (cursor : Cursor) (b : ReplayBuffer) (s : Store)
    → (read_enforced cursor b s).0.next_event_id ≡ s.next_event_id
unfolding read_enforced
read_enforced-next cursor b s = ground arith

pub replay_checked-next :
    (now : ℕ) (cursor : Cursor) (s : Store)
    → (replay_checked now cursor s).0.next_event_id ≡ s.next_event_id
replay_checked-next now cursor s =
    replay_checked_cases (λ r. r.0.next_event_id ≡ s.next_event_id) now cursor s refl
      (λ b h.
        replay_found_cases (λ r. r.0.next_event_id ≡ s.next_event_id) now cursor b s refl
          (read_enforced-next cursor (enforce_replay_limits s.limits now b) s))
