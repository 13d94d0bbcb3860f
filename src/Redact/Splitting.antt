-- ===== src/Redact/Splitting.antt =====
-- gateway/internal/redact/registry.go: how long sensitive values are cut into segments.
use codex_runtime.Base.{
  ℕ, ◌⊎◌, append-nil, zero, suc, ◌-◌, ◌≤◌, Text, ◌≡◌, refl, ap, ◌∙◌, List, [], ◌∷◌, ◌++◌, length,
  take, drop, All, arith,
}
use codex_runtime.Redact.Registry.{segment_size, split_from, split_sensitive_value}

abbrev pub concat : List Text → Text
concat [] = []
concat (t ∷ ts) = t ++ concat ts

pub take-drop_append : (n : ℕ) (t : Text) → take n t ++ drop n t ≡ t
take-drop_append zero t = refl
take-drop_append (suc n) [] = refl
take-drop_append (suc n) (x ∷ t) = ap (λ l. x ∷ l) (take-drop_append n t)

pub length-drop : (n : ℕ) (t : Text) → length (drop n t) ≡ length t - n
length-drop zero t = omega arith
length-drop (suc n) [] = omega arith
length-drop (suc n) (x ∷ t) = omega (arith, length-drop n t)

length-take : (n : ℕ) (t : Text) → n ≤ length t → length (take n t) ≡ n
length-take zero t h = omega arith
length-take (suc n) [] h = omega arith
length-take (suc n) (x ∷ t) h = omega (arith, length-take n t (omega arith))

-- A segment that may be registered.
abbrev pub IsSegment : Text → Type 0
IsSegment t = (4 ≤ length t) × (length t ≤ 2048)

segment_size-bounds :
    (n : ℕ)
    → 4 ≤ n
    → (4 ≤ segment_size n)
      × (segment_size n ≤ 2048)
      × (segment_size n ≤ n)
      × ((segment_size n ≡ n) ⊎ (4 ≤ n - segment_size n))
unfolding segment_size
segment_size-bounds n h = ground arith

split_from-concat :
    (fuel : ℕ) (t : Text)
    → length t ≤ fuel
    → (length t ≡ 0) ⊎ (4 ≤ length t)
    → concat (split_from fuel t) ≡ t
unfolding split_from
split_from-concat fuel [] h k = refl
split_from-concat zero (x ∷ t) h k = ground arith
split_from-concat (suc fuel) (x ∷ t) h k =
    let n = segment_size (length (x ∷ t)) in
    let b = segment_size-bounds (length (x ∷ t)) (ground arith) in
    ap (λ l. take n (x ∷ t) ++ l)
      (split_from-concat fuel (drop n (x ∷ t)) (omega (arith, length-drop n (x ∷ t), b.0, h))
        (ground (arith, length-drop n (x ∷ t), b.2, b.3)))
    ∙ take-drop_append n (x ∷ t)

split_from-IsSegment :
    (fuel : ℕ) (t : Text) → (length t ≡ 0) ⊎ (4 ≤ length t) → All IsSegment (split_from fuel t)
unfolding split_from
split_from-IsSegment fuel [] k = tt
split_from-IsSegment zero (x ∷ t) k = tt
split_from-IsSegment (suc fuel) (x ∷ t) k =
    let n = segment_size (length (x ∷ t)) in
    let b = segment_size-bounds (length (x ∷ t)) (ground arith) in
    (
      ground (arith, b.0, b.1, length-take n (x ∷ t) b.2),
      split_from-IsSegment fuel (drop n (x ∷ t)) (ground (arith, length-drop n (x ∷ t), b.2, b.3)),
    )

-- A value of at least four bytes, however long, is cut into segments of 4 to 2048 bytes that put
-- together are the value.
pub split_sensitive_value-concat :
    (value : Text)
    → 4 ≤ length value
    → (concat (split_sensitive_value value) ≡ value) × All IsSegment (split_sensitive_value value)
unfolding split_sensitive_value
split_sensitive_value-concat value h = ground (
  arith,
  split_from-concat (length value) value,
  split_from-IsSegment (length value) value,
  append-nil value,
)
