-- ===== src/Base/Lists.antt =====
-- Lists measured by native numbers, and predicates on their elements.
use Prim.Native.Nat.{ℕ, zero, suc, ◌+◌, ◌≤◌}
use mathlib.Core.Path.{◌≡◌, refl, sym, subst}
use mathlib.Core.Logic.{◌⊎◌, inl, inr}
use mathlib.Core.Bool.{Bool, false}
use mathlib.Core.List.{List, [], ◌∷◌, ◌++◌}
use native.Mathlib.Omega.{arith}
use codex_runtime.Base.Tests.{if◌then◌else◌}

module _ {ℓ} {A : Type ℓ} where
  abbrev pub length : List A → ℕ
  length [] = 0
  length (x ∷ xs) = suc (length xs)

  abbrev pub take : ℕ → List A → List A
  take zero xs = []
  take (suc n) [] = []
  take (suc n) (x ∷ xs) = x ∷ take n xs

  abbrev pub drop : ℕ → List A → List A
  drop zero xs = xs
  drop (suc n) [] = []
  drop (suc n) (x ∷ xs) = drop n xs

  pub length-append : (xs ys : List A) → length (xs ++ ys) ≡ length xs + length ys
  length-append [] ys = omega arith
  length-append (x ∷ xs) ys = omega (arith, length-append xs ys)

  pub length-take_le : (n : ℕ) (xs : List A) → length (take n xs) ≤ n
  length-take_le zero xs = omega arith
  length-take_le (suc n) [] = omega arith
  length-take_le (suc n) (x ∷ xs) = omega (arith, length-take_le n xs)

  -- The elements that pass a test, in order.
  unfoldable pub keep_if : (A → Bool) → List A → List A
  keep_if p [] = []
  keep_if p (x ∷ xs) = let rest = keep_if p xs in if p x then x ∷ rest else rest

  pub keep_if-append :
      (p : A → Bool) (xs ys : List A) → keep_if p (xs ++ ys) ≡ keep_if p xs ++ keep_if p ys
  unfolding keep_if
  keep_if-append p [] ys = refl
  keep_if-append p (x ∷ xs) ys = ground (arith, keep_if-append p xs ys)

  abbrev pub All {κ} : (A → Type κ) → List A → Type κ
  All P [] = Unit
  All P (x ∷ xs) = P x × All P xs

  pub All-append {κ} : (P : A → Type κ) (xs ys : List A) → All P xs → All P ys → All P (xs ++ ys)
  All-append P [] ys hx hy = hy
  All-append P (x ∷ xs) ys hx hy = (hx.0, All-append P xs ys hx.1 hy)

  pub keep_if-none : (p : A → Bool) (xs : List A) → All (λ x. p x ≡ false) xs → keep_if p xs ≡ []
  unfolding keep_if
  keep_if-none p [] h = refl
  keep_if-none p (x ∷ xs) h = ground (arith, keep_if-none p xs h.1)

module _ {A : Type 0} where
  -- The element is one of the list's.
  abbrev pub Holds : A → List A → Type 0
  Holds a [] = ⊥
  Holds a (x ∷ xs) = (a ≡ x) ⊎ Holds a xs

  pub Holds-append_left : (a : A) (xs ys : List A) → Holds a xs → Holds a (xs ++ ys)
  Holds-append_left a [] ys h = elim h [ ]
  Holds-append_left a (x ∷ xs) ys (inl p) = inl p
  Holds-append_left a (x ∷ xs) ys (inr h) = inr (Holds-append_left a xs ys h)

  pub Holds-append_right : (a : A) (xs ys : List A) → Holds a ys → Holds a (xs ++ ys)
  Holds-append_right a [] ys h = h
  Holds-append_right a (x ∷ xs) ys h = inr (Holds-append_right a xs ys h)

  pub All-Holds {κ} : (P : A → Type κ) (a : A) (xs : List A) → All P xs → Holds a xs → P a
  All-Holds P a [] k h = elim h [ ]
  All-Holds P a (x ∷ xs) k (inl p) = subst P (sym p) k.0
  All-Holds P a (x ∷ xs) k (inr h) = All-Holds P a xs k.1 h
