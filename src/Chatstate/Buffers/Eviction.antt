-- ===== src/Chatstate/Buffers/Eviction.antt =====
-- `enforceReplayLimitsLocked`: which events leave a buffer.
use codex_runtime.Base.{
  ℕ, ◌+◌, ◌≤◌, ◌<◌, ◌≡◌, refl, ap, sym, ◌∙◌, inl, inr, Bool-cases, List, [], ◌∷◌, ◌++◌,
  append_assoc, length, u64, arith,
}
use codex_runtime.Chatstate.Types.{Limits, EventRecord}
use codex_runtime.Chatstate.Store.{ReplayBuffer}
use codex_runtime.Chatstate.Replay.{int64_sub, over_limits, enforce_from, enforce_replay_limits}

-- The bytes of a list of events.
abbrev pub total : List EventRecord → ℕ
total [] = 0
total (e ∷ es) = e.size_bytes + total es

pub total-append : (es fs : List EventRecord) → total (es ++ fs) ≡ total es + total fs
total-append [] fs = omega arith
total-append (e ∷ es) fs = omega (arith, total-append es fs)

-- An int64 is below 2^63.
abbrev pub int64_limit : ℕ
int64_limit = 9223372036854775808

-- A buffer within its limits, whose byte count is exact.
pub record IsBounded (limits : Limits) (b : ReplayBuffer) : Type 0 where
  pub count : length b.events ≤ limits.replay_max_events
  pub bytes : b.bytes ≤ limits.replay_max_bytes
  pub exact : b.bytes ≡ total b.events

enforce_from-IsBounded :
    (limits : Limits) (now : ℕ) (es : List EventRecord) (bytes start : ℕ)
    → bytes ≡ total es
    → total es < int64_limit
    → IsBounded limits (enforce_from limits now es bytes start)
unfolding enforce_from over_limits
enforce_from-IsBounded limits now [] bytes start h small = ground arith
enforce_from-IsBounded limits now (e ∷ es) bytes start h small = ground (
  arith,
  enforce_from-IsBounded limits now es (int64_sub bytes e.size_bytes) (u64 (e.event_id + 1))
      (omega arith) (omega arith),
)

pub enforce_replay_limits-IsBounded :
    (limits : Limits) (now : ℕ) (b : ReplayBuffer)
    → b.bytes ≡ total b.events
    → total b.events < int64_limit
    → IsBounded limits (enforce_replay_limits limits now b)
unfolding enforce_replay_limits
enforce_replay_limits-IsBounded limits now b h small =
    enforce_from-IsBounded limits now b.events b.bytes b.start_evicted_before_event_id h small

-- What is left is the newest part of what was there.
abbrev pub IsEnd : List EventRecord → List EventRecord → Type 0
IsEnd es kept = (gone : List EventRecord) × (es ≡ gone ++ kept)

pub IsEnd-refl : (es : List EventRecord) → IsEnd es es
IsEnd-refl es = ([], refl)

-- A part of the end of a list is an end of the list.
pub IsEnd-trans : (es fs gs : List EventRecord) → IsEnd es fs → IsEnd fs gs → IsEnd es gs
IsEnd-trans es fs gs (a, p) (b, q) = (a ++ b, p ∙ ap (λ l. a ++ l) q ∙ sym (append_assoc a b gs))

pub IsEnd-append : (es fs gs : List EventRecord) → IsEnd es fs → IsEnd (es ++ gs) (fs ++ gs)
IsEnd-append es fs gs (a, p) = (a, ap (λ l. l ++ gs) p ∙ append_assoc a fs gs)

enforce_from-IsEnd :
    (limits : Limits) (now : ℕ) (es : List EventRecord) (bytes start : ℕ)
    → IsEnd es (enforce_from limits now es bytes start).events
unfolding enforce_from
enforce_from-IsEnd limits now [] bytes start = ([], refl)
enforce_from-IsEnd limits now (e ∷ es) bytes start =
    let (gone, rest) =
      enforce_from-IsEnd limits now es (int64_sub bytes e.size_bytes) (u64 (e.event_id + 1)) in
    elim (Bool-cases (over_limits limits now e (length (e ∷ es)) bytes)) [
      | inl over ↦ (e ∷ gone, rw over (ap (λ l. e ∷ l) rest))
      | inr fits ↦ ([], rw fits refl)
    ]

pub enforce_replay_limits-IsEnd :
    (limits : Limits) (now : ℕ) (b : ReplayBuffer)
    → IsEnd b.events (enforce_replay_limits limits now b).events
unfolding enforce_replay_limits
enforce_replay_limits-IsEnd limits now b =
    enforce_from-IsEnd limits now b.events b.bytes b.start_evicted_before_event_id
