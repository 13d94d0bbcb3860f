-- ===== src/Redact/Carry.antt =====
-- gateway/internal/redact/stream.go: what a stream holds back.
use codex_runtime.Base.{
  ℕ, ◌-◌, ◌≤◌, ◌<◌, Text, Option, none, some, List, [], ◌∷◌, ◌++◌, length, All, Bool-cases, leb,
  ◌==◌, inl, inr, arith,
}
use codex_runtime.Redact.Stream.{
  Redactor, Stream, sensitive_intervals, hold_bytes, write_window, write_held, write, new_stream,
}
use codex_runtime.Redact.Splitting.{length-drop}
use codex_runtime.Redact.Boundaries.{safe_publish_end-Whole}
use codex_runtime.Redact.Windows.{sensitive_intervals-bound}

pub record IsHeld (s : Stream) : Type 0 where
  pub short : length s.carry ≤ 2048
  pub published : s.carry_published ≤ length s.carry

hold_bytes-le : (r : Option Redactor) (window : Text) → hold_bytes r window ≤ 2048
unfolding hold_bytes
hold_bytes-le none window = omega arith
hold_bytes-le (some r) window = ground arith

intervals-bound :
    (r : Option Redactor) (window : Text)
    → All (λ i. i.end ≤ length window) (sensitive_intervals r window)
unfolding sensitive_intervals
intervals-bound none window = tt
intervals-bound (some r) window = sensitive_intervals-bound r window

write_window-IsHeld :
    (window : Text) (hold : ℕ) (s : Stream)
    → hold ≤ 2048
    → hold < length window
    → IsHeld (write_window window hold s).0
unfolding write_window
write_window-IsHeld window hold s h k =
    let start = length window - hold in
    let b =
      safe_publish_end-Whole (length window) (sensitive_intervals s.redactor window) start
        (omega arith) (intervals-bound s.redactor window) in
    record {
      short = omega (arith, length-drop start window, h, k);
      published = omega (arith, length-drop start window, b.0, b.1);
    }

write_held-IsHeld :
    (window : Text) (hold : ℕ) (s : Stream) → hold ≤ 2048 → IsHeld (write_held window hold s).0
unfolding write_held
write_held-IsHeld window hold s h = elim (Bool-cases (hold == 0)) [
  | inl p ↦ rw p (record { short = omega arith; published = omega arith })
  | inr p ↦ elim (Bool-cases (leb (length window) hold)) [
    | inl q ↦ rw (p, q) (record { short = ground arith; published = omega arith })
    | inr q ↦ rw (p, q) (write_window-IsHeld window hold s h (ground arith))
  ]
]

write-IsHeld : (chunk : Text) (s : Stream) → IsHeld s → IsHeld (write chunk s).0
unfolding write
write-IsHeld [] s v = v
write-IsHeld (x ∷ chunk) s v =
    write_held-IsHeld (s.carry ++ (x ∷ chunk)) (hold_bytes s.redactor (s.carry ++ (x ∷ chunk))) s
      (hold_bytes-le s.redactor (s.carry ++ (x ∷ chunk)))

-- Chunks written one after the other, each with the state that the redactor's registries have then.
unfoldable pub write_all : List (Option Redactor × Text) → Stream → Stream
write_all [] s = s
write_all ((r, chunk) ∷ chunks) s = write_all chunks (write chunk (record s { redactor = r })).0

write_all-IsHeld_from :
    (chunks : List (Option Redactor × Text)) (s : Stream) → IsHeld s → IsHeld (write_all chunks s)
unfolding write_all
write_all-IsHeld_from [] s v = v
write_all-IsHeld_from ((r, chunk) ∷ chunks) s v =
    write_all-IsHeld_from chunks (write chunk (record s { redactor = r })).0 (
      write-IsHeld chunk (record s { redactor = r })
        (record { short = v.short; published = v.published }))

-- Whatever is written to a new stream, and whatever values are registered in between, the stream
-- holds back at most 2048 bytes, and the count of those already published stays within them.
pub write_all-IsHeld :
    (redactor : Option Redactor) (chunks : List (Option Redactor × Text))
    → IsHeld (write_all chunks (new_stream redactor))
unfolding new_stream
write_all-IsHeld redactor chunks =
    write_all-IsHeld_from chunks _ (record { short = omega arith; published = omega arith })
