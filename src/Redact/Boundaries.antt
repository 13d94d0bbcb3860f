-- ===== src/Redact/Boundaries.antt =====
-- gateway/internal/redact/stream.go: `safePublishEnd`.
use codex_runtime.Base.{
  ℕ, ◌⊎◌, zero, suc, ◌≤◌, ◌<◌, ◌≡◌, refl, sym, subst, List, [], ◌∷◌, length, All, ltb,
  if◌then◌else◌, inl, inr, arith,
}
use codex_runtime.Redact.Stream.{
  SensitiveInterval, next_publish_end, publish_end_from, safe_publish_end,
}

-- The point lies at one end of the interval or outside it.
abbrev pub Whole : ℕ → SensitiveInterval → Type 0
Whole e i = (e ≤ i.start) ⊎ (i.end ≤ e)

-- How many intervals end beyond the point.
abbrev beyond : ℕ → List SensitiveInterval → ℕ
beyond e [] = 0
beyond e (i ∷ is) = if ltb e i.end then suc (beyond e is) else beyond e is

next_publish_end-le : (is : List SensitiveInterval) (e : ℕ) → e ≤ next_publish_end is e
unfolding next_publish_end
next_publish_end-le [] e = omega arith
next_publish_end-le (i ∷ is) e =
    ground (arith, next_publish_end-le is e, next_publish_end-le is i.end)

next_publish_end-Whole :
    (is : List SensitiveInterval) (e : ℕ) → next_publish_end is e ≡ e → All (Whole e) is
unfolding next_publish_end
next_publish_end-Whole [] e h = tt
next_publish_end-Whole (i ∷ is) e h =
    ground (arith, next_publish_end-le is i.end, next_publish_end-Whole is e)

beyond_mono : (is : List SensitiveInterval) (e f : ℕ) → e ≤ f → beyond f is ≤ beyond e is
beyond_mono [] e f h = omega arith
beyond_mono (i ∷ is) e f h = ground (arith, beyond_mono is e f h)

-- A pass that moves the point leaves fewer intervals beyond it.
next_publish_end-beyond :
    (is : List SensitiveInterval) (e : ℕ)
    → (next_publish_end is e ≡ e) ⊎ (beyond (next_publish_end is e) is < beyond e is)
unfolding next_publish_end
next_publish_end-beyond [] e = inl refl
next_publish_end-beyond (i ∷ is) e = ground (
  arith,
  next_publish_end-beyond is e,
  next_publish_end-le is e,
  next_publish_end-le is i.end,
  beyond_mono is e (next_publish_end is i.end),
)

beyond-length : (is : List SensitiveInterval) (e : ℕ) → beyond e is ≤ length is
beyond-length [] e = omega arith
beyond-length (i ∷ is) e = ground (arith, beyond-length is e)

publish_end_from-fixed :
    (fuel : ℕ) (is : List SensitiveInterval) (e : ℕ)
    → next_publish_end is e ≡ e
    → publish_end_from (suc fuel) is e ≡ e
unfolding publish_end_from
publish_end_from-fixed fuel is e h = ground arith

publish_end_from-moved :
    (fuel : ℕ) (is : List SensitiveInterval) (e : ℕ)
    → beyond (next_publish_end is e) is < beyond e is
    → publish_end_from (suc fuel) is e ≡ publish_end_from fuel is (next_publish_end is e)
unfolding publish_end_from
publish_end_from-moved fuel is e h = ground arith

-- Every interval ends at the point or before it, or starts there or after it, once each of the
-- intervals beyond the point has moved it at most once.
publish_end_from-Whole :
    (fuel : ℕ) (is : List SensitiveInterval) (e : ℕ)
    → beyond e is ≤ fuel
    → All (Whole (publish_end_from fuel is e)) is
publish_end_from-Whole zero is e h =
    unfold publish_end_from in
    next_publish_end-Whole is e (ground (arith, next_publish_end-beyond is e))
publish_end_from-Whole (suc fuel) is e h = elim (next_publish_end-beyond is e) [
  | inl p ↦
      subst (λ q. All (Whole q) is) (sym (publish_end_from-fixed fuel is e p))
        (next_publish_end-Whole is e p)
  | inr p ↦
      subst (λ q. All (Whole q) is) (sym (publish_end_from-moved fuel is e p))
        (publish_end_from-Whole fuel is (next_publish_end is e) (omega (arith, h, p)))
]

publish_end_from-le :
    (fuel : ℕ) (is : List SensitiveInterval) (e : ℕ) → e ≤ publish_end_from fuel is e
unfolding publish_end_from
publish_end_from-le zero is e = omega arith
publish_end_from-le (suc fuel) is e =
    ground (arith, publish_end_from-le fuel is (next_publish_end is e), next_publish_end-le is e)

next_publish_end-bound :
    (n : ℕ) (is : List SensitiveInterval) (e : ℕ)
    → e ≤ n
    → All (λ i. i.end ≤ n) is
    → next_publish_end is e ≤ n
unfolding next_publish_end
next_publish_end-bound n [] e h k = h
next_publish_end-bound n (i ∷ is) e h k =
    ground (arith, next_publish_end-bound n is e h k.1, next_publish_end-bound n is i.end k.0 k.1)

publish_end_from-bound :
    (n fuel : ℕ) (is : List SensitiveInterval) (e : ℕ)
    → e ≤ n
    → All (λ i. i.end ≤ n) is
    → publish_end_from fuel is e ≤ n
unfolding publish_end_from
publish_end_from-bound n zero is e h k = h
publish_end_from-bound n (suc fuel) is e h k = ground (
  arith,
  publish_end_from-bound n fuel is (next_publish_end is e) (next_publish_end-bound n is e h k) k,
)

-- The point up to which a stream publishes is at or after the one asked for, within any bound on
-- that one and on the intervals' ends, and inside none of the intervals: no occurrence of a
-- sensitive value is published in part. A number of passes equal to the number of intervals finds
-- it.
pub safe_publish_end-Whole :
    (n : ℕ) (is : List SensitiveInterval) (e : ℕ)
    → e ≤ n
    → All (λ i. i.end ≤ n) is
    → (e ≤ safe_publish_end is e)
      × (safe_publish_end is e ≤ n)
      × All (Whole (safe_publish_end is e)) is
unfolding safe_publish_end
safe_publish_end-Whole n is e h k = (
  publish_end_from-le (length is) is e,
  publish_end_from-bound n (length is) is e h k,
  publish_end_from-Whole (length is) is e (beyond-length is e),
)
