-- ===== src/Redact/Windows.antt =====
-- gateway/internal/redact/stream.go: the occurrences of sensitive values in a window.
use codex_runtime.Base.{
  ℕ, ◌⊎◌, if◌then◌else◌, ◌+◌, ◌≤◌, Text, Bool, true, false, ◌≡◌, refl, ap, subst, some, List, [],
  ◌∷◌, ◌++◌, length, All, All-append, Holds, Holds-append_left, Holds-append_right, All-Holds, inl,
  inr, arith,
}
use codex_runtime.Redact.Strings.{has_prefix, insert_sorted, sort_stable}
use codex_runtime.Redact.Stream.{
  Redactor, sensitive_segments, SensitiveInterval, occurrences, all_occurrences,
  sensitive_intervals, interval_less, safe_publish_end,
}
use codex_runtime.Redact.Absence.{All-sort_stable}
use codex_runtime.Redact.Boundaries.{Whole, safe_publish_end-Whole}

has_prefix_self : (segment post : Text) → has_prefix (segment ++ post) segment ≡ true
unfolding has_prefix
has_prefix_self [] [] = refl
has_prefix_self [] (x ∷ post) = refl
has_prefix_self (x ∷ segment) post = ground (arith, has_prefix_self segment post)

has_prefix-length :
    (text segment : Text) → has_prefix text segment ≡ true → length segment ≤ length text
unfolding has_prefix
has_prefix-length text [] h = omega arith
has_prefix-length [] (y ∷ segment) h = ground arith
has_prefix-length (x ∷ text) (y ∷ segment) h = ground (arith, has_prefix-length text segment)

-- Where a segment that starts at the offset lies.
abbrev pub interval_at : ℕ → Text → SensitiveInterval
interval_at offset segment = record { start = offset; end = offset + length segment }

Holds-maybe :
    {A : Type 0} (found : Bool) (a b : A) (xs : List A)
    → Holds a xs
    → Holds a (if found then b ∷ xs else xs)
Holds-maybe true a b xs h = inr h
Holds-maybe false a b xs h = h

occurrences-Holds :
    (x : ℕ) (segment pre post : Text) (offset : ℕ)
    → Holds
        (interval_at (offset + length pre) (x ∷ segment))
        (occurrences (x ∷ segment) offset (pre ++ ((x ∷ segment) ++ post)))
unfolding occurrences
occurrences-Holds x segment [] post offset =
    rw (has_prefix_self (x ∷ segment) post)
      (inl (ap (λ n. interval_at n (x ∷ segment)) (omega arith)))
occurrences-Holds x segment (y ∷ pre) post offset = Holds-maybe _ _ _ _ (
    subst
      (λ n.
        Holds (interval_at n (x ∷ segment))
          (occurrences (x ∷ segment) (offset + 1) (pre ++ ((x ∷ segment) ++ post))))
      (omega arith) (occurrences-Holds x segment pre post (offset + 1)))

occurrences-bound :
    (n : ℕ) (segment : Text) (offset : ℕ) (window : Text)
    → offset + length window ≤ n
    → All (λ i. i.end ≤ n) (occurrences segment offset window)
unfolding occurrences
occurrences-bound n segment offset [] h = tt
occurrences-bound n segment offset (x ∷ window) h = ground (
  arith,
  has_prefix-length (x ∷ window) segment,
  occurrences-bound n segment (offset + 1) window (omega (arith, h)),
)

all_occurrences-Holds :
    (i : SensitiveInterval) (segment : Text) (segments : List Text) (window : Text)
    → Holds segment segments
    → Holds i (occurrences segment 0 window)
    → Holds i (all_occurrences segments window)
unfolding all_occurrences
all_occurrences-Holds i segment [] window h k = elim h [ ]
all_occurrences-Holds i segment (t ∷ ts) window (inl p) k =
    Holds-append_left i (occurrences t 0 window) (all_occurrences ts window)
      (subst (λ u. Holds i (occurrences u 0 window)) p k)
all_occurrences-Holds i segment (t ∷ ts) window (inr h) k =
    Holds-append_right i (occurrences t 0 window) (all_occurrences ts window)
      (all_occurrences-Holds i segment ts window h k)

all_occurrences-bound :
    (segments : List Text) (window : Text)
    → All (λ i. i.end ≤ length window) (all_occurrences segments window)
unfolding all_occurrences
all_occurrences-bound [] window = tt
all_occurrences-bound (t ∷ ts) window =
    All-append (λ i. i.end ≤ length window) (occurrences t 0 window) (all_occurrences ts window)
      (occurrences-bound (length window) t 0 window (omega arith)) (all_occurrences-bound ts window)

module _ {A : Type 0} (less : A → A → Bool) where
  Holds-insert_sorted :
      (a x : A) (xs : List A) → (a ≡ x) ⊎ Holds a xs → Holds a (insert_sorted less x xs)
  unfolding insert_sorted
  Holds-insert_sorted a x [] h = h
  Holds-insert_sorted a x (y ∷ ys) h = ground (arith, Holds-insert_sorted a x ys)

  Holds-sort_stable : (a : A) (xs : List A) → Holds a xs → Holds a (sort_stable less xs)
  unfolding sort_stable
  Holds-sort_stable a [] h = h
  Holds-sort_stable a (x ∷ xs) (inl p) = Holds-insert_sorted a x (sort_stable less xs) (inl p)
  Holds-sort_stable a (x ∷ xs) (inr h) =
      Holds-insert_sorted a x (sort_stable less xs) (inr (Holds-sort_stable a xs h))

-- The bytes of the window that a segment takes are the ones of an interval that is searched for.
pub sensitive_intervals-Holds :
    (r : Redactor) (x : ℕ) (segment pre post : Text)
    → Holds (x ∷ segment) (sensitive_segments r)
    → Holds
        (interval_at (length pre) (x ∷ segment))
        (sensitive_intervals (some r) (pre ++ ((x ∷ segment) ++ post)))
unfolding sensitive_intervals
sensitive_intervals-Holds r x segment pre post h =
    let window = pre ++ ((x ∷ segment) ++ post) in
    let found : Holds (interval_at (length pre) (x ∷ segment))
        (occurrences (x ∷ segment) 0 window) =
      subst (λ n. Holds (interval_at n (x ∷ segment)) (occurrences (x ∷ segment) 0 window))
        (omega arith) (occurrences-Holds x segment pre post 0) in
    Holds-sort_stable interval_less _ (all_occurrences (sensitive_segments r) window)
      (all_occurrences-Holds _ (x ∷ segment) (sensitive_segments r) window h found)

pub sensitive_intervals-bound :
    (r : Redactor) (window : Text)
    → All (λ i. i.end ≤ length window) (sensitive_intervals (some r) window)
unfolding sensitive_intervals
sensitive_intervals-bound r window =
    All-sort_stable interval_less (λ i. i.end ≤ length window)
      (all_occurrences (sensitive_segments r) window)
      (all_occurrences-bound (sensitive_segments r) window)

-- The point up to which a stream publishes a window, where the carry is to start somewhere in the
-- window, is a point of the window that is not before the carry's start, and that lies within no
-- occurrence of a registered segment, which is not empty.
pub publish_end-Whole :
    (r : Redactor) (x : ℕ) (segment pre post : Text) (carry_start : ℕ)
    → Holds (x ∷ segment) (sensitive_segments r)
    → carry_start ≤ length (pre ++ ((x ∷ segment) ++ post))
    → let window = pre ++ ((x ∷ segment) ++ post) in
      let point = safe_publish_end (sensitive_intervals (some r) window) carry_start in
      (carry_start ≤ point)
      × (point ≤ length window)
      × ((point ≤ length pre) ⊎ (length pre + length (x ∷ segment) ≤ point))
publish_end-Whole r x segment pre post carry_start h k =
    let window = pre ++ ((x ∷ segment) ++ post) in
    let intervals = sensitive_intervals (some r) window in
    let (a, b, c) =
      safe_publish_end-Whole (length window) intervals carry_start k
        (sensitive_intervals-bound r window) in
    (
      a,
      b,
      All-Holds (Whole (safe_publish_end intervals carry_start))
          (interval_at (length pre) (x ∷ segment)) intervals c
          (sensitive_intervals-Holds r x segment pre post h),
    )
