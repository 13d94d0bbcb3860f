-- ===== src/Redact/Scenarios.antt =====
-- A registry with one secret, and a stream that is searched for it.
use codex_runtime.Base.{
  ◌⊎◌, ◌≤◌, Text, ◌≡◌, refl, none, some, List, [], ◌∷◌, ◌++◌, All, Holds, lookup, insert, inl,
  arith, ap, length, length-append, ltb, if◌then◌else◌, false,
}
use codex_runtime.Redact.Strings.{has_prefix}
use codex_runtime.Redact.Patterns.{
  Pattern, unix_path, Library, redact_patterns, redact_generic_secrets, redact_headers,
  redact_secret_urls, redact_freeform_paths,
}
use codex_runtime.Redact.Registry.{
  Registry, new_registry, add_segment, add_segments, add, add_many, split_sensitive_value,
}
use codex_runtime.Redact.Stream.{
  Redactor, sensitive_segments, sensitive_intervals, safe_publish_end, new_stream,
}
use codex_runtime.Redact.Splitting.{concat, IsSegment, split_sensitive_value-concat}
use codex_runtime.Redact.Covering.{IsSound, add_many-Holds}
use codex_runtime.Redact.Absence.{IsClear}
use codex_runtime.Redact.Transparency.{IsPlain, publish_all, publish_all-concat}
use codex_runtime.Redact.Windows.{publish_end-Whole}
use codex_runtime.Redact.Carry.{IsHeld, write_all, write_all-IsHeld}

-- "token"
abbrev secret : Text
secret = 116 ∷ 111 ∷ 107 ∷ 101 ∷ 110 ∷ []

abbrev registry : Registry
registry = record { segments = secret ∷ []; seen = insert secret tt []; longest = 5 }

-- A pattern for paths that matches text of more than four bytes.
abbrev hide_long : Pattern → Text → Text → Text
hide_long unix_path text marker = if ltb 4 (length text) then marker else text
hide_long _ text marker = text

-- Nothing else is matched, and no url or value of JSON is found.
abbrev matcher : Library
matcher = record {
  replace_all_string = hide_long;
  replace_all_string_func = λ p text f. text;
  find_string_submatch = λ p text. [];
  trim_space = λ text. text;
  parse = λ text. none;
  redact_sensitive_json_scalars = λ text. none;
}

abbrev redactor : Redactor
redactor = record { task = some registry; connection = none; has_paths = false; library = matcher }

-- "a " and " b"
abbrev words : List Text
words = (97 ∷ 32 ∷ []) ∷ (32 ∷ 98 ∷ []) ∷ []

split_sensitive_value-concat_example :
    (concat (split_sensitive_value secret) ≡ secret) × All IsSegment (split_sensitive_value secret)
split_sensitive_value-concat_example = split_sensitive_value-concat secret (omega arith)

add_many-Holds_example :
    IsSound (add_many (secret ∷ []) new_registry)
    × All
        (λ t. Holds t (add_many (secret ∷ []) new_registry).segments)
        (split_sensitive_value secret)
add_many-Holds_example = add_many-Holds (secret ∷ []) secret (inl refl) (omega arith)

registered : add_many (secret ∷ []) new_registry ≡ registry
unfolding add_many add add_segments add_segment split_sensitive_value insert lookup
registered = refl

words-IsClear : IsClear (sensitive_segments redactor) (concat words)
unfolding sensitive_segments has_prefix
words-IsClear = ground arith

words-IsPlain : IsPlain redactor (concat words)
unfolding redact_patterns redact_generic_secrets redact_headers redact_secret_urls
    redact_freeform_paths
words-IsPlain = record {
  clear = words-IsClear;
  untouched = λ a piece b p.
      let whole : 4 ≡ length (a ++ (piece ++ b)) = ap length p in
      let short : length piece ≤ 4 =
        omega (arith, whole, length-append a (piece ++ b), length-append piece b) in
      ground (arith, short);
}

publish_all-concat_example : publish_all words (new_stream (some redactor)) ≡ concat words
publish_all-concat_example = publish_all-concat redactor words words-IsPlain

secret-Holds : Holds secret (sensitive_segments redactor)
unfolding sensitive_segments
secret-Holds = inl refl

publish_end-Whole_example :
    let window = (97 ∷ []) ++ (secret ++ (98 ∷ [])) in
    let point = safe_publish_end (sensitive_intervals (some redactor) window) 3 in
    (3 ≤ point) × (point ≤ 7) × ((point ≤ 1) ⊎ (6 ≤ point))
publish_end-Whole_example =
    publish_end-Whole redactor 116 (111 ∷ 107 ∷ 101 ∷ 110 ∷ []) (97 ∷ []) (98 ∷ []) 3 secret-Holds
      (omega arith)

write_all-IsHeld_example : IsHeld (write_all ((some redactor, secret) ∷ []) (new_stream none))
write_all-IsHeld_example = write_all-IsHeld none ((some redactor, secret) ∷ [])
