-- ===== src/Redact/Strings.antt =====
-- What gateway/internal/redact uses of the packages strings and sort of Go, over bytes.
use codex_runtime.Base.{
  ℕ, zero, suc, ◌-◌, Text, Bool, true, false, ◌&&◌, List, [], ◌∷◌, ◌++◌, length, take, drop, ◌==◌,
  if◌then◌else◌,
}

-- strings.HasPrefix(text, prefix)
unfoldable pub has_prefix : Text → Text → Bool
has_prefix text [] = true
has_prefix [] (y ∷ prefix) = false
has_prefix (x ∷ text) (y ∷ prefix) = x == y && has_prefix text prefix

-- `skip` counts the bytes of a match that are still to pass over.
unfoldable pub replace_from : Text → Text → ℕ → Text → Text
replace_from old new skip [] = []
replace_from old new (suc skip) (x ∷ text) = replace_from old new skip text
replace_from old new zero (x ∷ text) = elim (has_prefix (x ∷ text) old) [
  | true ↦ new ++ replace_from old new (length old - 1) text
  | false ↦ x ∷ replace_from old new zero text
]

-- strings.ReplaceAll(text, old, new) for an `old` that is not empty.
unfoldable pub replace_all : Text → Text → Text → Text
replace_all text old new = replace_from old new 0 text

-- text[start:end]
abbrev pub slice : Text → ℕ → ℕ → Text
slice text start end = take (end - start) (drop start text)

module _ {ℓ} {A : Type ℓ} (less : A → A → Bool) where
  unfoldable pub insert_sorted : A → List A → List A
  insert_sorted x [] = x ∷ []
  insert_sorted x (y ∷ ys) =
      let rest = insert_sorted x ys in if less y x then y ∷ rest else x ∷ (y ∷ ys)

  -- sort.SliceStable: elements of which neither is less keep their order.
  unfoldable pub sort_stable : List A → List A
  sort_stable [] = []
  sort_stable (x ∷ xs) = insert_sorted x (sort_stable xs)
