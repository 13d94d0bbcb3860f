-- ===== src/Redact/Covering.antt =====
-- gateway/internal/redact/registry.go: what a registry holds of the values that it was given.
use codex_runtime.Base.{
  All-Holds, ℕ, ◌≤◌, sym, max, Text, text_eq, text_eq_iff, true, false, ◌≡◌, refl, List, [], ◌∷◌,
  ◌++◌, length, All, All-append, Holds, Holds-append_left, Holds-append_right, lookup, insert,
  lookup-insert, is_some, Bool-cases, ltb, inl, inr, arith,
}
use codex_runtime.Redact.Registry.{
  Registry, new_registry, add_segment, add_segments, add, add_many, split_sensitive_value,
}
use codex_runtime.Redact.Splitting.{IsSegment, split_sensitive_value-concat}

pub record IsSound (r : Registry) : Type 0 where
  pub sizes : All IsSegment r.segments
  pub longest : All (λ t. length t ≤ r.longest) r.segments
  pub seen : (t : Text) → is_some (lookup t r.seen) ≡ true → Holds t r.segments

longest_mono :
    (m n : ℕ) (ts : List Text) → m ≤ n → All (λ t. length t ≤ m) ts → All (λ t. length t ≤ n) ts
longest_mono m n [] h k = tt
longest_mono m n (t ∷ ts) h k = (omega (arith, h, k.0), longest_mono m n ts h k.1)

-- What a new segment makes of the registry.
abbrev extended : Text → Registry → Registry
extended t r = record {
  segments = r.segments ++ (t ∷ []);
  seen = insert t tt r.seen;
  longest = max r.longest (length t);
}

extended-IsSound : (t : Text) (r : Registry) → IsSegment t → IsSound r → IsSound (extended t r)
extended-IsSound t r h v = record {
  sizes = All-append IsSegment r.segments (t ∷ []) v.sizes (h, tt);
  longest =
      All-append (λ u. length u ≤ max r.longest (length t)) r.segments (t ∷ [])
        (longest_mono r.longest (max r.longest (length t)) r.segments (omega arith) v.longest)
        (omega arith, tt);
  seen = λ u p. elim (Bool-cases (text_eq t u)) [
    | inl same ↦ Holds-append_right u r.segments (t ∷ []) (inl (sym ((text_eq_iff t u).0 same)))
    | inr other ↦
        Holds-append_left u r.segments (t ∷ [])
          (v.seen u (ground (arith, lookup-insert t u tt r.seen)))
  ];
}

module _ (P : Registry → Type 0) where
  add_segment_cases :
      (t : Text) (r : Registry)
      → 4 ≤ length t
      → (is_some (lookup t r.seen) ≡ true → P r)
      → P (extended t r)
      → P (add_segment t r)
  unfolding add_segment
  add_segment_cases t r h old fresh =
      let z : ltb (length t) 4 ≡ false = ground arith in
      elim (Bool-cases (is_some (lookup t r.seen))) [
        | inl p ↦ rw (z, p) (old p)
        | inr p ↦ rw (z, p) fresh
      ]

-- What adding a segment achieves.
abbrev Added : Text → Registry → Registry → Type 0
Added t r r' =
    IsSound r' × Holds t r'.segments × ((u : Text) → Holds u r.segments → Holds u r'.segments)

add_segment-Added :
    (t : Text) (r : Registry) → IsSegment t → IsSound r → Added t r (add_segment t r)
add_segment-Added t r h v =
    add_segment_cases (Added t r) t r h.0 (λ p. (v, v.seen t p, λ u q. q))
      (
        extended-IsSound t r h v,
        Holds-append_right t r.segments (t ∷ []) (inl refl),
        λ u q. Holds-append_left u r.segments (t ∷ []) q,
      )

-- What adding several segments achieves.
abbrev AddedAll : List Text → Registry → Registry → Type 0
AddedAll ts r r' =
    IsSound r'
    × All (λ t. Holds t r'.segments) ts
    × ((u : Text) → Holds u r.segments → Holds u r'.segments)

add_segments-AddedAll :
    (ts : List Text) (r : Registry)
    → All IsSegment ts
    → IsSound r
    → AddedAll ts r (add_segments ts r)
unfolding add_segments
add_segments-AddedAll [] r h v = (v, tt, λ u q. q)
add_segments-AddedAll (t ∷ ts) r h v =
    let (w, k, m) = add_segment-Added t r h.0 v in
    let (w', k', m') = add_segments-AddedAll ts (add_segment t r) h.1 w in
    (w', (m' t k, k'), λ u q. m' u (m u q))

-- Adding a value of four bytes or more adds its segments, and adding a shorter one nothing.
abbrev AddedValue : Text → Registry → Registry → Type 0
AddedValue value r r' =
    IsSound r'
    × (4 ≤ length value → All (λ t. Holds t r'.segments) (split_sensitive_value value))
    × ((u : Text) → Holds u r.segments → Holds u r'.segments)

add-AddedValue : (value : Text) (r : Registry) → IsSound r → AddedValue value r (add value r)
unfolding add
add-AddedValue value r v = elim (Bool-cases (ltb (length value) 4)) [
  | inl p ↦
      let small : 4 ≤ length value → All (λ t. Holds t r.segments) (split_sensitive_value value) =
        λ q. ground arith in
      rw p (v, small, λ u q. q)
  | inr p ↦
      let q : 4 ≤ length value = ground arith in
      let (w, k, m) =
        add_segments-AddedAll (split_sensitive_value value) r
          (split_sensitive_value-concat value q).1 v in
      let large : 4 ≤ length value
          → All (λ t. Holds t (add_segments (split_sensitive_value value) r).segments)
              (split_sensitive_value value) =
        λ _. k in
      rw p (w, large, m)
]

Held-mono :
    (r r' : Registry) (ts : List Text)
    → ((u : Text) → Holds u r.segments → Holds u r'.segments)
    → All (λ t. Holds t r.segments) ts
    → All (λ t. Holds t r'.segments) ts
Held-mono r r' [] m h = tt
Held-mono r r' (t ∷ ts) m h = (m t h.0, Held-mono r r' ts m h.1)

-- The segments of each value are the registry's, for values that are not too short.
abbrev pub Covered : List Text → Registry → Type 0
Covered values r =
    All (λ v. 4 ≤ length v → All (λ t. Holds t r.segments) (split_sensitive_value v)) values

pub add_many-Covered_from :
    (values : List Text) (r : Registry)
    → IsSound r
    → IsSound (add_many values r)
      × Covered values (add_many values r)
      × ((u : Text) → Holds u r.segments → Holds u (add_many values r).segments)
unfolding add_many
add_many-Covered_from [] r v = (v, tt, λ u q. q)
add_many-Covered_from (value ∷ values) r v =
    let (w, k, m) = add-AddedValue value r v in
    let (w', k', m') = add_many-Covered_from values (add value r) w in
    (
      w',
      (λ q. Held-mono (add value r) (add_many values (add value r)) _ m' (k q), k'),
      λ u q. m' u (m u q),
    )

pub new_registry-IsSound : IsSound new_registry
unfolding lookup
new_registry-IsSound = record { sizes = tt; longest = tt; seen = λ t p. ground arith }

-- A registry that is given any values holds every segment of each of them that has four bytes or
-- more, and it is sound: all that it holds has 4 to 2048 bytes, and at most as many as it says is
-- the longest, and what it says it has seen is held.
pub add_many-Holds :
    (values : List Text) (value : Text)
    → Holds value values
    → 4 ≤ length value
    → let r = add_many values new_registry in
      IsSound r × All (λ t. Holds t r.segments) (split_sensitive_value value)
add_many-Holds values value h k =
    let r = add_many values new_registry in
    let (v, c, m) = add_many-Covered_from values new_registry new_registry-IsSound in
    (
      v,
      All-Holds (λ w. 4 ≤ length w → All (λ t. Holds t r.segments) (split_sensitive_value w)) value
          values c h k,
    )
