-- ===== src/Redact/Absence.antt =====
-- gateway/internal/redact: text in which no sensitive value occurs.
use codex_runtime.Base.{
  ℕ, ◌+◌, Text, Bool, true, false, ◌≡◌, refl, ap, ◌∙◌, some, List, [], ◌∷◌, ◌++◌, All, arith,
}
use codex_runtime.Redact.Strings.{has_prefix, replace_from, replace_all, insert_sorted, sort_stable}
use codex_runtime.Redact.Registry.{
  replace_each, redact_segments_longest_first, is_longer, sensitive_value_marker,
}
use codex_runtime.Redact.Stream.{
  Redactor, clean, sensitive_segments, redact_string, occurrences, all_occurrences,
  sensitive_intervals, interval_less,
}

-- The segment starts nowhere in the text.
abbrev pub Absent : Text → Text → Type 0
Absent segment [] = Unit
Absent segment (x ∷ text) = (has_prefix (x ∷ text) segment ≡ false) × Absent segment text

has_prefix-append :
    (segment a b : Text) → has_prefix a segment ≡ true → has_prefix (a ++ b) segment ≡ true
unfolding has_prefix
has_prefix-append [] [] b h = ground arith
has_prefix-append [] (x ∷ a) b h = ground arith
has_prefix-append (y ∷ segment) [] b h = ground arith
has_prefix-append (y ∷ segment) (x ∷ a) b h = ground (arith, has_prefix-append segment a b)

pub Absent-left : (segment a b : Text) → Absent segment (a ++ b) → Absent segment a
Absent-left segment [] b h = tt
Absent-left segment (x ∷ a) b h =
    (ground (arith, has_prefix-append segment (x ∷ a) b, h.0), Absent-left segment a b h.1)

pub Absent-right : (segment a b : Text) → Absent segment (a ++ b) → Absent segment b
Absent-right segment [] b h = h
Absent-right segment (x ∷ a) b h = Absent-right segment a b h.1

-- None of the segments occurs in the text.
abbrev pub IsClear : List Text → Text → Type 0
IsClear segments text = All (λ segment. Absent segment text) segments

pub IsClear-left :
    (segments : List Text) (a b : Text) → IsClear segments (a ++ b) → IsClear segments a
IsClear-left [] a b h = tt
IsClear-left (t ∷ ts) a b h = (Absent-left t a b h.0, IsClear-left ts a b h.1)

pub IsClear-right :
    (segments : List Text) (a b : Text) → IsClear segments (a ++ b) → IsClear segments b
IsClear-right [] a b h = tt
IsClear-right (t ∷ ts) a b h = (Absent-right t a b h.0, IsClear-right ts a b h.1)

module _ {A : Type 0} (less : A → A → Bool) (P : A → Type 0) where
  All-insert_sorted : (x : A) (xs : List A) → P x → All P xs → All P (insert_sorted less x xs)
  unfolding insert_sorted
  All-insert_sorted x [] h k = (h, tt)
  All-insert_sorted x (y ∷ ys) h k = ground (arith, h, k.0, k.1, All-insert_sorted x ys h k.1)

  pub All-sort_stable : (xs : List A) → All P xs → All P (sort_stable less xs)
  unfolding sort_stable
  All-sort_stable [] h = tt
  All-sort_stable (x ∷ xs) h =
      All-insert_sorted x (sort_stable less xs) h.0 (All-sort_stable xs h.1)

replace_from-Absent : (old new text : Text) → Absent old text → replace_from old new 0 text ≡ text
unfolding replace_from
replace_from-Absent old new [] h = refl
replace_from-Absent old new (x ∷ text) h = ground (arith, h.0, replace_from-Absent old new text h.1)

replace_each-IsClear :
    (segments : List Text) (text : Text) → IsClear segments text → replace_each segments text ≡ text
unfolding replace_each replace_all
replace_each-IsClear [] text h = refl
replace_each-IsClear (t ∷ ts) text h =
    ap (replace_each ts) (replace_from-Absent t sensitive_value_marker text h.0)
    ∙ replace_each-IsClear ts text h.1

pub redact_string-IsClear :
    (r : Redactor) (text : Text)
    → clean r text ≡ text
    → IsClear (sensitive_segments r) text
    → redact_string r text ≡ text
unfolding redact_string redact_segments_longest_first
redact_string-IsClear r [] c h = refl
redact_string-IsClear r (x ∷ text) c h =
    ap (clean r) (
      replace_each-IsClear (sort_stable is_longer (sensitive_segments r)) (x ∷ text)
        (All-sort_stable is_longer (λ t. Absent t (x ∷ text)) (sensitive_segments r) h))
    ∙ c

occurrences-Absent :
    (segment : Text) (offset : ℕ) (text : Text)
    → Absent segment text
    → occurrences segment offset text ≡ []
unfolding occurrences
occurrences-Absent segment offset [] h = refl
occurrences-Absent segment offset (x ∷ text) h =
    ground (arith, h.0, occurrences-Absent segment (offset + 1) text h.1)

all_occurrences-IsClear :
    (segments : List Text) (text : Text)
    → IsClear segments text
    → all_occurrences segments text ≡ []
unfolding all_occurrences
all_occurrences-IsClear [] text h = refl
all_occurrences-IsClear (t ∷ ts) text h =
    ground (arith, occurrences-Absent t 0 text h.0, all_occurrences-IsClear ts text h.1)

pub sensitive_intervals-IsClear :
    (r : Redactor) (text : Text)
    → IsClear (sensitive_segments r) text
    → sensitive_intervals (some r) text ≡ []
unfolding sensitive_intervals sort_stable
sensitive_intervals-IsClear r text h =
    ap (sort_stable interval_less) (all_occurrences-IsClear (sensitive_segments r) text h)
