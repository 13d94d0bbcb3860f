-- ===== src/Chatruntime/Orders.antt =====
-- gateway/internal/chatruntime/stream.go: the order of the ids that a stream skips by.
use codex_runtime.Base.{
  ℕ, ◌≤◌, ◌<◌, max, ltb, ◌≡◌, refl, ap, ◌∙◌, List, [], ◌∷◌, ◌++◌, All, keep_if, keep_if-append,
  arith, Bool-cases, inl, inr, subst,
}
use codex_runtime.Chatstate.Types.{EventRecord}
use codex_runtime.Chatstate.Replay.{newer}
use codex_runtime.Chatstate.Buffers.Log.{Rising}
use codex_runtime.Chatruntime.Streams.{next_live}

-- The largest id, or the first argument where that is larger.
abbrev pub top : ℕ → List EventRecord → ℕ
top last [] = last
top last (e ∷ es) = top (max last e.event_id) es

top-above_start : (last : ℕ) (es : List EventRecord) → last ≤ top last es
top-above_start last [] = omega arith
top-above_start last (e ∷ es) = omega (arith, top-above_start (max last e.event_id) es)

pub top-above : (last : ℕ) (es : List EventRecord) → All (λ e. e.event_id ≤ top last es) es
top-above last [] = tt
top-above last (e ∷ es) =
    (omega (arith, top-above_start (max last e.event_id) es), top-above (max last e.event_id) es)

Rising-lower : (k lo : ℕ) (es : List EventRecord) → k ≤ lo → Rising lo es → Rising k es
Rising-lower k lo [] h r = tt
Rising-lower k lo (e ∷ es) h r = (omega (arith, h, r.0), r.1)

-- What comes later in a rising log is above all that a cursor selects of what came before.
pub Rising-top :
    (after k lo : ℕ) (xs ys : List EventRecord)
    → k ≤ lo
    → Rising lo (xs ++ ys)
    → Rising (top k (newer after xs)) ys
unfolding newer keep_if
Rising-top after k lo [] ys h r = Rising-lower k lo ys h r
Rising-top after k lo (x ∷ xs) ys h r = elim (Bool-cases (ltb after x.event_id)) [
  | inl p ↦ rw p (Rising-top after (max k x.event_id) x.event_id xs ys (omega (arith, h, r.0)) r.1)
  | inr p ↦ rw p (Rising-top after k x.event_id xs ys (omega (arith, h, r.0)) r.1)
]

pub newer-whole :
    (after : ℕ) (es : List EventRecord) → All (λ e. after < e.event_id) es → newer after es ≡ es
unfolding newer keep_if
newer-whole after [] h = refl
newer-whole after (e ∷ es) h = ground (arith, h.0, newer-whole after es h.1)

All-right :
    (n : ℕ) (xs ys : List EventRecord)
    → All (λ e. e.event_id ≤ n) (xs ++ ys)
    → All (λ e. e.event_id ≤ n) ys
All-right n [] ys h = h
All-right n (x ∷ xs) ys h = All-right n xs ys h.1

pub All-last :
    (after : ℕ) (xs ys : List EventRecord)
    → All (λ e. after < e.event_id) (xs ++ ys)
    → All (λ e. after < e.event_id) ys
All-last after [] ys h = h
All-last after (x ∷ xs) ys h = All-last after xs ys h.1

All-first :
    (after : ℕ) (xs ys : List EventRecord)
    → All (λ e. after < e.event_id) (xs ++ ys)
    → All (λ e. after < e.event_id) xs
All-first after [] ys h = tt
All-first after (x ∷ xs) ys h = (h.0, All-first after xs ys h.1)

pub newer-append :
    (after : ℕ) (xs ys : List EventRecord)
    → newer after (xs ++ ys) ≡ newer after xs ++ newer after ys
unfolding newer
newer-append after xs ys = keep_if-append (λ e. ltb after e.event_id) xs ys

pub between-top :
    (after : ℕ) (old between later : List EventRecord)
    → All (λ e. after < e.event_id) (between ++ later)
    → All (λ e. e.event_id ≤ top 0 (newer after (old ++ between))) between
between-top after old between later above =
    let same : newer after (old ++ between) ≡ newer after old ++ between =
      newer-append after old between
      ∙ ap (λ es. newer after old ++ es)
          (newer-whole after between (All-first after between later above)) in
    All-right (top 0 (newer after (old ++ between))) (newer after old) between (
      subst (All (λ e. e.event_id ≤ top 0 (newer after (old ++ between)))) same
        (top-above 0 (newer after (old ++ between))))

pub next_live-stale :
    (last : ℕ) (stale later : List EventRecord)
    → All (λ e. e.event_id ≤ last) stale
    → next_live last (stale ++ later) ≡ next_live last later
unfolding next_live
next_live-stale last [] later h = refl
next_live-stale last (e ∷ stale) later h = ground (arith, h.0, next_live-stale last stale later h.1)
