-- ===== src/Redact/Transparency.antt =====
-- gateway/internal/redact/stream.go: a stream of text without sensitive values.
use codex_runtime.Base.{
  ℕ, Bool-cases, inl, inr, ◌-◌, min, Text, ◌≡◌, refl, ap, sym, ◌∙◌, subst, some, List, [], ◌∷◌,
  ◌++◌, append_assoc, append-nil, length, take, drop, leb, ◌==◌, arith,
}
use codex_runtime.Redact.Stream.{
  Redactor, clean, Stream, sensitive_segments, redact_with, redact_from, redact_range,
  publish_end_from, safe_publish_end, redact_string, hold_bytes, write_window, write_held, write,
  flush, new_stream,
}
use codex_runtime.Redact.Splitting.{concat, take-drop_append}
use codex_runtime.Redact.Absence.{
  IsClear, IsClear-left, IsClear-right, redact_string-IsClear, sensitive_intervals-IsClear,
}

-- What a stream publishes of some chunks, the last of them flushed.
unfoldable pub publish_all : List Text → Stream → Text
publish_all [] s = (flush s).1
publish_all (chunk ∷ chunks) s = (write chunk s).1 ++ publish_all chunks (write chunk s).0

take-length : (t : Text) → take (length t) t ≡ t
take-length [] = refl
take-length (x ∷ t) = ap (λ l. x ∷ l) (take-length t)

-- Text in which the redactor finds nothing: no segment occurs in it, and its patterns leave every piece
-- of it as it is.
pub record IsPlain (r : Redactor) (text : Text) : Type 0 where
  pub clear : IsClear (sensitive_segments r) text
  pub untouched : (a piece b : Text) → text ≡ a ++ (piece ++ b) → clean r piece ≡ piece

IsPlain-left : (r : Redactor) (a b : Text) → IsPlain r (a ++ b) → IsPlain r a
IsPlain-left r a b v = record {
  clear = IsClear-left (sensitive_segments r) a b v.clear;
  untouched = λ x piece y p. v.untouched x piece (y ++ b) (
      ap (λ t. t ++ b) p
      ∙ append_assoc x (piece ++ y) b
      ∙ ap (λ t. x ++ t) (append_assoc piece y b));
}

IsPlain-right : (r : Redactor) (a b : Text) → IsPlain r (a ++ b) → IsPlain r b
IsPlain-right r a b v = record {
  clear = IsClear-right (sensitive_segments r) a b v.clear;
  untouched = λ x piece y p.
      v.untouched (a ++ x) piece y (ap (λ t. a ++ t) p ∙ sym (append_assoc a x (piece ++ y)));
}

IsPlain-whole : (r : Redactor) (text : Text) → IsPlain r text → clean r text ≡ text
IsPlain-whole r text v = v.untouched [] text [] (sym (append-nil text))

redact_string-IsPlain : (r : Redactor) (text : Text) → IsPlain r text → redact_string r text ≡ text
redact_string-IsPlain r text v = redact_string-IsClear r text (IsPlain-whole r text v) v.clear

module _ (r : Redactor) where
  -- A stream that has published everything before its carry.
  abbrev at : Text → Stream
  at carry = record { redactor = some r; carry = carry; carry_published = 0 }

  -- What a step may do: it publishes the front of the window and carries the end of it.
  abbrev Passes : Text → Stream × Text → Type 0
  Passes window w = (carry : Text) × (w.0 ≡ at carry) × (w.1 ++ carry ≡ window)

  redact_range-IsPlain :
      (window : Text) (k : ℕ)
      → IsPlain r window
      → redact_range (some r) window 0 k [] ≡ take k window
  unfolding redact_range redact_from redact_with
  redact_range-IsPlain window k h = ground (
    arith,
    redact_string-IsPlain r (take k window) (
        IsPlain-left r (take k window) (drop k window)
          (subst (IsPlain r) (sym (take-drop_append k window)) h)),
  )

  write_window-Passes :
      (window carry : Text) (hold : ℕ)
      → IsPlain r window
      → Passes window (write_window window hold (at carry))
  unfolding write_window safe_publish_end publish_end_from
  write_window-Passes window carry hold h = rw (sensitive_intervals-IsClear r window h.clear) (
    drop (length window - hold) window,
    ap (λ n. record (at (drop (length window - hold) window)) { carry_published = n })
        (omega arith),
    ground (
      arith,
      redact_range-IsPlain window (length window - hold) h,
      take-drop_append (length window - hold) window,
    ),
  )

  write_all-Passes :
      (window : Text)
      → IsPlain r window
      → Passes window (at [], redact_range (some r) window 0 (length window) [])
  write_all-Passes window h =
      ([], refl, append-nil _ ∙ redact_range-IsPlain window (length window) h ∙ take-length window)

  write_none-Passes :
      (window : Text)
      → Passes window (record (at window) { carry_published = min 0 (length window) }, [])
  write_none-Passes window =
      (window, ap (λ n. record (at window) { carry_published = n }) (omega arith), refl)

  write_held-Passes :
      (window carry : Text) (hold : ℕ)
      → IsPlain r window
      → Passes window (write_held window hold (at carry))
  unfolding write_held
  write_held-Passes window carry hold h = elim (Bool-cases (hold == 0)) [
    | inl p ↦ rw p (write_all-Passes window h)
    | inr p ↦ elim (Bool-cases (leb (length window) hold)) [
      | inl q ↦ rw (p, q) (write_none-Passes window)
      | inr q ↦ rw (p, q) (write_window-Passes window carry hold h)
    ]
  ]

  write-Passes :
      (chunk carry : Text)
      → IsPlain r (carry ++ chunk)
      → Passes (carry ++ chunk) (write chunk (at carry))
  unfolding write
  write-Passes [] carry h = (carry, refl, sym (append-nil carry))
  write-Passes (x ∷ chunk) carry h =
      write_held-Passes (carry ++ (x ∷ chunk)) carry (hold_bytes (some r) (carry ++ (x ∷ chunk))) h

  flush-carry : (carry : Text) → IsPlain r carry → (flush (at carry)).1 ≡ carry
  unfolding flush
  flush-carry [] h = refl
  flush-carry (x ∷ carry) h =
      let z : min 0 (length (x ∷ carry)) ≡ 0 = omega arith in
      rw (sensitive_intervals-IsClear r (x ∷ carry) h.clear, z)
        (redact_range-IsPlain (x ∷ carry) (length (x ∷ carry)) h ∙ take-length (x ∷ carry))

  publish_all-carry :
      (chunks : List Text) (carry : Text)
      → IsPlain r (carry ++ concat chunks)
      → publish_all chunks (at carry) ≡ carry ++ concat chunks
  unfolding publish_all
  publish_all-carry [] carry h =
      flush-carry carry (subst (IsPlain r) (append-nil carry) h) ∙ sym (append-nil carry)
  publish_all-carry (chunk ∷ chunks) carry h =
      let rest = concat chunks in
      let (c, e, p) = write-Passes chunk carry (
        IsPlain-left r (carry ++ chunk) rest
          (subst (IsPlain r) (sym (append_assoc carry chunk rest)) h)) in
      let out = (write chunk (at carry)).1 in
      let q : out ++ (c ++ rest) ≡ carry ++ (chunk ++ rest) =
        sym (append_assoc out c rest) ∙ ap (λ t. t ++ rest) p ∙ append_assoc carry chunk rest in
      let later =
        publish_all-carry chunks c
          (IsPlain-right r out (c ++ rest) (subst (IsPlain r) (sym q) h)) in
      ap (λ s. out ++ publish_all chunks s) e ∙ ap (λ t. out ++ t) later ∙ q

  -- Text in which no registered segment of the redactor occurs, and of which its patterns leave every
  -- piece as it is, is published whole: the chunks published and the flush together are that text,
  -- wherever it is cut into chunks. Nothing is lost, repeated or moved by what the stream holds back.
  pub publish_all-concat :
      (chunks : List Text)
      → IsPlain r (concat chunks)
      → publish_all chunks (new_stream (some r)) ≡ concat chunks
  unfolding new_stream
  publish_all-concat chunks h = publish_all-carry chunks [] h
