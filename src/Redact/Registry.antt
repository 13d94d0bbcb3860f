-- ===== src/Redact/Registry.antt =====
-- gateway/internal/redact/registry.go: the sensitive values of one task or connection, in
-- segments of bounded size. The nil registry is `none`.
use codex_runtime.Base.{
  ℕ, zero, suc, ◌++◌, ◌-◌, min, max, Text, Bool, ◌&&◌, Option, none, some, List, [], ◌∷◌, Map,
  lookup, insert, length, take, drop, ltb, leb, if◌then◌else◌, is_some,
}
use codex_runtime.Redact.Strings.{replace_all, sort_stable}

abbrev pub min_sensitive_value_bytes : ℕ
min_sensitive_value_bytes = 4

abbrev pub max_sensitive_segment_bytes : ℕ
max_sensitive_segment_bytes = 2048

-- "[REDACTED:sensitive-value]"
abbrev pub sensitive_value_marker : Text
sensitive_value_marker =
    91 ∷ 82 ∷ 69 ∷ 68 ∷ 65 ∷ 67 ∷ 84 ∷ 69 ∷ 68 ∷ 58 ∷ 115 ∷ 101 ∷ 110 ∷ 115 ∷ 105 ∷ 116 ∷ 105 ∷ 118
    ∷ 101 ∷ 45 ∷ 118 ∷ 97 ∷ 108 ∷ 117 ∷ 101 ∷ 93 ∷ []

-- `seen` is `map[string]struct{}`.
pub record Registry : Type 0 where
  pub segments : List Text
  pub seen : Map (Unit {0})
  pub longest : ℕ

abbrev pub new_registry : Registry
new_registry = record { segments = []; seen = []; longest = 0 }

-- How much of the `remaining` bytes the next segment takes.
unfoldable pub segment_size : ℕ → ℕ
segment_size remaining =
    let size = min 2048 remaining in
    if ltb 2048 remaining && (ltb 0 (remaining - size) && ltb (remaining - size) 4)
    then size - (4 - (remaining - size))
    else size

-- The loop of `splitSensitiveValue` over the bytes from `start` on, which stops at their end.
unfoldable pub split_from : ℕ → Text → List Text
split_from fuel [] = []
split_from zero (x ∷ rest) = []
split_from (suc fuel) (x ∷ rest) =
    let size = segment_size (length (x ∷ rest)) in
    take size (x ∷ rest) ∷ split_from fuel (drop size (x ∷ rest))

unfoldable pub split_sensitive_value : Text → List Text
split_sensitive_value value =
    if ltb (length value) 4
    then []
    else if leb (length value) 2048
    then value ∷ []
    else split_from (length value) value

unfoldable pub add_segment : Text → Registry → Registry
add_segment segment r =
    if ltb (length segment) 4 then r else if is_some (lookup segment r.seen) then r else record {
      segments = r.segments ++ (segment ∷ []);
      seen = insert segment tt r.seen;
      longest = max r.longest (length segment);
    }

unfoldable pub add_segments : List Text → Registry → Registry
add_segments [] r = r
add_segments (segment ∷ segments) r = add_segments segments (add_segment segment r)

unfoldable pub add : Text → Registry → Registry
add value r = if ltb (length value) 4 then r else add_segments (split_sensitive_value value) r

unfoldable pub add_many : List Text → Registry → Registry
add_many [] r = r
add_many (value ∷ values) r = add_many values (add value r)

abbrev pub segments_of : Option Registry → List Text
segments_of none = []
segments_of (some r) = r.segments

abbrev pub longest_segment_bytes : Option Registry → ℕ
longest_segment_bytes none = 0
longest_segment_bytes (some r) = r.longest

unfoldable pub is_longer : Text → Text → Bool
is_longer a b = ltb (length b) (length a)

unfoldable pub replace_each : List Text → Text → Text
replace_each [] text = text
replace_each (segment ∷ segments) text =
    replace_each segments (replace_all text segment sensitive_value_marker)

-- The early return for no text or no segments gives what the loop gives.
unfoldable pub redact_segments_longest_first : Text → List Text → Text
redact_segments_longest_first [] segments = []
redact_segments_longest_first (x ∷ text) segments =
    replace_each (sort_stable is_longer segments) (x ∷ text)

unfoldable pub redact : Option Registry → Text → Text
redact none text = text
redact (some r) text = redact_segments_longest_first text r.segments
