-- ===== src/Redact/Stream.antt =====
-- gateway/internal/redact/stream.go and the parts of redactor.go that it uses: redaction of text
-- that arrives in chunks.
use codex_runtime.Base.{
  ℕ, zero, suc, ◌+◌, ◌-◌, min, max, Text, Bool, ◌&&◌, ◌||◌, Option, none, some, List, [], ◌∷◌, ◌++◌,
  length, drop, ltb, leb, ◌==◌, if◌then◌else◌,
}
use codex_runtime.Redact.Strings.{has_prefix, slice, sort_stable}
use codex_runtime.Redact.Patterns.{Library, redact_patterns}
use codex_runtime.Redact.Registry.{
  Registry, segments_of, longest_segment_bytes, redact_segments_longest_first,
  sensitive_value_marker,
}

-- Whether there is a sanitizer of paths, with the packages that the patterns are matched by.
pub record Redactor : Type 0 where
  pub task : Option Registry
  pub connection : Option Registry
  pub has_paths : Bool
  pub library : Library

unfoldable pub sensitive_segments : Redactor → List Text
sensitive_segments r = segments_of r.task ++ segments_of r.connection

unfoldable pub longest_sensitive_segment_bytes : Redactor → ℕ
longest_sensitive_segment_bytes r =
    max (longest_segment_bytes r.task) (longest_segment_bytes r.connection)

-- The end of RedactString, after the exact segments.
abbrev pub clean : Redactor → Text → Text
clean r = redact_patterns r.library r.has_paths

unfoldable pub redact_string : Redactor → Text → Text
redact_string r [] = []
redact_string r (x ∷ text) =
    clean r (redact_segments_longest_first (x ∷ text) (sensitive_segments r))

abbrev pub max_streaming_carry_bytes : ℕ
max_streaming_carry_bytes = 2048

pub record Stream : Type 0 where
  pub redactor : Option Redactor
  pub carry : Text
  pub carry_published : ℕ

unfoldable pub new_stream : Option Redactor → Stream
new_stream redactor = record { redactor = redactor; carry = []; carry_published = 0 }

unfoldable pub hold_bytes : Option Redactor → Text → ℕ
hold_bytes none window = 0
hold_bytes (some r) window =
    let longest = longest_sensitive_segment_bytes r in
    if leb longest 1 then 0 else min (min (longest - 1) 2048) (length window)

-- `s.redact`
unfoldable pub redact_with : Option Redactor → Text → Text
redact_with none text = text
redact_with (some r) text = redact_string r text

pub record SensitiveInterval : Type 0 where
  pub start : ℕ
  pub end : ℕ

-- Where the segment occurs in the bytes from the offset on. The search goes on one byte after the
-- last hit, so that it finds overlapping occurrences.
unfoldable pub occurrences : Text → ℕ → Text → List SensitiveInterval
occurrences segment offset [] = []
occurrences segment offset (x ∷ window) =
    let later = occurrences segment (offset + 1) window in
    if has_prefix (x ∷ window) segment
    then record { start = offset; end = offset + length segment } ∷ later
    else later

unfoldable pub all_occurrences : List Text → Text → List SensitiveInterval
all_occurrences [] window = []
all_occurrences (segment ∷ segments) window =
    occurrences segment 0 window ++ all_occurrences segments window

unfoldable pub interval_less : SensitiveInterval → SensitiveInterval → Bool
interval_less i j = if i.start == j.start then ltb j.end i.end else ltb i.start j.start

unfoldable pub sensitive_intervals : Option Redactor → Text → List SensitiveInterval
sensitive_intervals none window = []
sensitive_intervals (some r) window =
    sort_stable interval_less (all_occurrences (sensitive_segments r) window)

-- The inner loop of `safePublishEnd`.
unfoldable pub next_publish_end : List SensitiveInterval → ℕ → ℕ
next_publish_end [] e = e
next_publish_end (i ∷ intervals) e =
    next_publish_end intervals (if ltb i.start e && ltb e i.end then i.end else e)

-- The outer loop, which ends once a pass over the intervals moves nothing.
unfoldable pub publish_end_from : ℕ → List SensitiveInterval → ℕ → ℕ
publish_end_from zero intervals e = e
publish_end_from (suc fuel) intervals e =
    let later = publish_end_from fuel intervals (next_publish_end intervals e) in
    if next_publish_end intervals e == e then e else later

unfoldable pub safe_publish_end : List SensitiveInterval → ℕ → ℕ
safe_publish_end intervals e = publish_end_from (length intervals) intervals e

abbrev piece : Option Redactor → Text → ℕ → ℕ → Text
piece r window start end = if ltb start end then redact_with r (slice window start end) else []

-- The loop of `redactRange`.
unfoldable pub redact_from : Option Redactor → Text → ℕ → ℕ → List SensitiveInterval → Text
redact_from r window end cursor [] = piece r window cursor end
redact_from r window end cursor (i ∷ intervals) =
    let skipped = leb i.end cursor || leb end i.start in
    let rest =
      redact_from r window end (if skipped then cursor else min (max cursor i.end) end) intervals in
    if skipped
    then rest
    else piece r window cursor (min (max i.start cursor) end) ++ (sensitive_value_marker ++ rest)

-- Without a redactor, or without intervals, the range is one piece, as the loop leaves it too.
unfoldable pub redact_range : Option Redactor → Text → ℕ → ℕ → List SensitiveInterval → Text
redact_range none window start end intervals =
    if leb end start then [] else redact_with none (slice window start end)
redact_range (some r) window start end intervals =
    if leb end start then [] else redact_from (some r) window end start intervals

-- Write once the window and what it holds back are known.
unfoldable pub write_window : Text → ℕ → Stream → Stream × Text
write_window window hold s =
    let intervals = sensitive_intervals s.redactor window in
    let carry_start = length window - hold in
    let publish_end = safe_publish_end intervals carry_start in
    let emit_start = min s.carry_published (length window) in
    (
      record s {
        carry = drop carry_start window;
        carry_published = max emit_start publish_end - carry_start;
      },
      redact_range s.redactor window emit_start publish_end intervals,
    )

unfoldable pub write_held : Text → ℕ → Stream → Stream × Text
write_held window hold s =
    if hold == 0
    then (
      record s { carry = []; carry_published = 0 },
      redact_range s.redactor window 0 (length window) [],
    )
    else if leb (length window) hold
    then (record s { carry = window; carry_published = min s.carry_published (length window) }, [])
    else write_window window hold s

unfoldable pub write : Text → Stream → Stream × Text
write [] s = (s, [])
write (x ∷ chunk) s =
    write_held (s.carry ++ (x ∷ chunk)) (hold_bytes s.redactor (s.carry ++ (x ∷ chunk))) s

unfoldable pub flush : Stream → Stream × Text
flush s = elim s.carry [
  | [] ↦ (s, [])
  | _ ∷ _ ↦ (
    record s { carry = []; carry_published = 0 },
    redact_range s.redactor s.carry (min s.carry_published (length s.carry)) (length s.carry)
        (sensitive_intervals s.redactor s.carry),
  )
]
