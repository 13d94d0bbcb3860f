-- ===== src/Base/Assoc.antt =====
-- Go's `map[string]V`, as an association list that holds each key once.
use Prim.Native.Nat.{ℕ, ◌+◌, ◌≤◌}
use mathlib.Core.Path.{◌≡◌, refl}
use mathlib.Core.Bool.{Bool, true, false}
use mathlib.Core.Option.{Option, none, some}
use mathlib.Core.List.{List, [], ◌∷◌}
use native.Mathlib.Omega.{arith}
use codex_runtime.Base.Tests.{if◌then◌else◌}
use codex_runtime.Base.Lists.{length}
use codex_runtime.Base.Texts.{Text, text_eq, text_eq_iff, text_eq_refl}

abbrev pub Map {ℓ} : Type ℓ → Type ℓ
Map V = List (Text × V)

abbrev pub one_if : Bool → ℕ
one_if true = 1
one_if false = 0

module _ {ℓ} {V : Type ℓ} where
  -- m[k]
  unfoldable pub lookup : Text → Map V → Option V
  lookup k [] = none
  lookup k ((j, v) ∷ m) = if text_eq j k then some v else lookup k m

  -- m[k] = v
  unfoldable pub insert : Text → V → Map V → Map V
  insert k v [] = (k, v) ∷ []
  insert k v ((j, w) ∷ m) = if text_eq j k then (k, v) ∷ m else (j, w) ∷ insert k v m

  -- delete(m, k)
  unfoldable pub remove : Text → Map V → Map V
  remove k [] = []
  remove k ((j, w) ∷ m) = let rest = remove k m in if text_eq j k then rest else (j, w) ∷ rest

  abbrev refined : Text → Option V → Map V → Map V
  refined j none rest = rest
  refined j (some w) rest = (j, w) ∷ rest

  -- A loop over the map that changes or deletes each entry by itself.
  unfoldable pub refine : (V → Option V) → Map V → Map V
  refine f [] = []
  refine f ((j, v) ∷ m) = refined j (f v) (refine f m)

  -- How many values pass a test.
  unfoldable pub count_values : (V → Bool) → Map V → ℕ
  count_values p [] = 0
  count_values p ((j, v) ∷ m) = one_if (p v) + count_values p m

  pub lookup-insert :
      (k j : Text) (v : V) (m : Map V)
      → lookup j (insert k v m) ≡ (if text_eq k j then some v else lookup j m)
  unfolding lookup insert
  lookup-insert k j v [] = refl
  lookup-insert k j v ((i, w) ∷ m) =
      ground (arith, text_eq_iff k j, text_eq_iff i k, text_eq_iff i j, lookup-insert k j v m)

  pub lookup-insert_self : (k : Text) (v : V) (m : Map V) → lookup k (insert k v m) ≡ some v
  lookup-insert_self k v m = ground (arith, lookup-insert k k v m, text_eq_refl k)

  pub lookup-remove :
      (k j : Text) (m : Map V) → lookup j (remove k m) ≡ (if text_eq k j then none else lookup j m)
  unfolding lookup remove
  lookup-remove k j [] = ground arith
  lookup-remove k j ((i, w) ∷ m) =
      ground (arith, text_eq_iff k j, text_eq_iff i k, text_eq_iff i j, lookup-remove k j m)

  pub length-insert : (k : Text) (v : V) (m : Map V) → length (insert k v m) ≤ length m + 1
  unfolding insert
  length-insert k v [] = omega arith
  length-insert k v ((i, w) ∷ m) = ground (arith, length-insert k v m)

  pub length-insert_new :
      (k : Text) (v w : V) (m : Map V) → lookup k m ≡ some w → length (insert k v m) ≡ length m
  unfolding lookup insert
  length-insert_new k v w [] h = cc
  length-insert_new k v w ((i, x) ∷ m) h = ground (arith, length-insert_new k v w m)

  pub length-remove_le : (k : Text) (m : Map V) → length (remove k m) ≤ length m
  unfolding remove
  length-remove_le k [] = omega arith
  length-remove_le k ((i, w) ∷ m) = ground (arith, length-remove_le k m)

  pub length-remove :
      (k : Text) (w : V) (m : Map V) → lookup k m ≡ some w → length (remove k m) + 1 ≤ length m
  unfolding lookup remove
  length-remove k w [] h = cc
  length-remove k w ((i, x) ∷ m) h = ground (arith, length-remove k w m, length-remove_le k m)

  pub length-refine : (f : V → Option V) (m : Map V) → length (refine f m) ≤ length m
  unfolding refine
  length-refine f [] = omega arith
  length-refine f ((i, x) ∷ m) = ground (arith, length-refine f m)

  pub count-insert_le :
      (p : V → Bool) (k : Text) (v : V) (m : Map V)
      → count_values p (insert k v m) ≤ count_values p m + 1
  unfolding count_values insert
  count-insert_le p k v [] = ground arith
  count-insert_le p k v ((i, w) ∷ m) = ground (arith, count-insert_le p k v m)

  -- Overwriting a value counts it no more than before, unless only the new one passes.
  pub count-insert_found :
      (p : V → Bool) (k : Text) (v w : V) (m : Map V)
      → lookup k m ≡ some w
      → (p v ≡ true → p w ≡ true)
      → count_values p (insert k v m) ≤ count_values p m
  unfolding count_values insert lookup
  count-insert_found p k v w [] h g = cc
  count-insert_found p k v w ((i, x) ∷ m) h g = ground (arith, count-insert_found p k v w m)

  pub count-refine :
      (p : V → Bool) (f : V → Option V)
      → ((v w : V) → f v ≡ some w → p w ≡ true → p v ≡ true)
      → (m : Map V) → count_values p (refine f m) ≤ count_values p m
  unfolding count_values refine
  count-refine p f keep [] = omega arith
  count-refine p f keep ((i, x) ∷ m) = grind (arith, count-refine p f keep m, keep x)

  -- No key stands twice.
  abbrev pub HasKeys : Map V → Type ℓ
  HasKeys [] = Unit
  HasKeys ((k, v) ∷ m) = (lookup k m ≡ none) × HasKeys m

  pub HasKeys-insert : (k : Text) (v : V) (m : Map V) → HasKeys m → HasKeys (insert k v m)
  unfolding insert lookup
  HasKeys-insert k v [] h = (refl, tt)
  HasKeys-insert k v ((i, w) ∷ m) h =
      ground
        (arith, text_eq_iff i k, text_eq_iff k i, lookup-insert k i v m, HasKeys-insert k v m h.1)

  pub HasKeys-remove : (k : Text) (m : Map V) → HasKeys m → HasKeys (remove k m)
  unfolding remove lookup
  HasKeys-remove k [] h = tt
  HasKeys-remove k ((i, w) ∷ m) h = ground (arith, lookup-remove k i m, HasKeys-remove k m h.1)

  pub lookup-refine-none :
      (f : V → Option V) (k : Text) (m : Map V) → lookup k m ≡ none → lookup k (refine f m) ≡ none
  unfolding refine lookup
  lookup-refine-none f k [] h = refl
  lookup-refine-none f k ((i, x) ∷ m) h = ground (arith, lookup-refine-none f k m)

  pub HasKeys-refine : (f : V → Option V) (m : Map V) → HasKeys m → HasKeys (refine f m)
  unfolding refine
  HasKeys-refine f [] h = tt
  HasKeys-refine f ((i, x) ∷ m) h =
      ground (arith, lookup-refine-none f i m h.0, HasKeys-refine f m h.1)

  abbrev pub and_then : Option V → (V → Option V) → Option V
  and_then none f = none
  and_then (some v) f = f v

  pub lookup-refine :
      (f : V → Option V) (k : Text) (m : Map V)
      → HasKeys m
      → lookup k (refine f m) ≡ and_then (lookup k m) f
  unfolding refine lookup
  lookup-refine f k [] h = refl
  lookup-refine f k ((i, x) ∷ m) h =
      ground (arith, text_eq_iff i k, lookup-refine f k m h.1, lookup-refine-none f k m)

  pub count-insert_new :
      (p : V → Bool) (k : Text) (v : V) (m : Map V)
      → lookup k m ≡ none
      → count_values p (insert k v m) ≡ one_if (p v) + count_values p m
  unfolding count_values insert lookup
  count-insert_new p k v [] h = refl
  count-insert_new p k v ((i, w) ∷ m) h = ground (arith, count-insert_new p k v m)

  pub count-insert_like :
      (p : V → Bool) (k : Text) (v w : V) (m : Map V)
      → lookup k m ≡ some w
      → p v ≡ p w
      → count_values p (insert k v m) ≡ count_values p m
  unfolding count_values insert lookup
  count-insert_like p k v w [] h e = cc
  count-insert_like p k v w ((i, x) ∷ m) h e = ground (arith, count-insert_like p k v w m)

  pub remove-none : (k : Text) (m : Map V) → lookup k m ≡ none → remove k m ≡ m
  unfolding remove lookup
  remove-none k [] h = refl
  remove-none k ((i, x) ∷ m) h = ground (arith, remove-none k m)

  pub count-remove :
      (p : V → Bool) (k : Text) (w : V) (m : Map V)
      → HasKeys m
      → lookup k m ≡ some w
      → one_if (p w) + count_values p (remove k m) ≡ count_values p m
  unfolding count_values remove lookup
  count-remove p k w [] u h = cc
  count-remove p k w ((i, x) ∷ m) u h =
      ground (arith, text_eq_iff i k, remove-none k m, count-remove p k w m u.1)

  pub lookup-empty : (k : Text) (m : Map V) → m ≡ [] → lookup k m ≡ none
  unfolding lookup
  lookup-empty k m h = rw h refl

  pub remove-empty : (k : Text) (m : Map V) → m ≡ [] → remove k m ≡ []
  unfolding remove
  remove-empty k m h = rw h refl
