-- ===== src/Redact/Patterns.antt =====
-- gateway/internal/redact/redactor.go and path.go: the end of RedactString, after the exact segments.
-- What the packages regexp, net/url and strings do is a parameter, and so is redactSensitiveJSONScalars
-- of json.go.
use codex_runtime.Base.{
  ℕ, Text, ascii, Bool, true, false, not, ◌&&◌, ◌||◌, Option, none, some, List, [], ◌∷◌, ◌++◌, ◌==◌,
  if◌then◌else◌,
}
use codex_runtime.Redact.Strings.{has_prefix}

-- The regular expressions that the source compiles.
pub data Pattern : Type 0 where
  private_key_block authorization cookie_header session_cookie jwt openai_key : Pattern
  json_secret_field json_generic_secret_field generic_assign : Pattern
  url_candidate windows_path unix_path : Pattern

-- What the source reads of a url.URL.
pub record Url : Type 0 where
  pub scheme : Text
  pub has_user : Bool
  pub raw_query : Text
  pub force_query : Bool
  pub fragment : Text

pub record Library : Type 0 where
  pub replace_all_string : Pattern → Text → Text → Text
  pub replace_all_string_func : Pattern → Text → (Text → Text) → Text
  pub find_string_submatch : Pattern → Text → List Text
  pub trim_space : Text → Text
  pub parse : Text → Option Url
  pub redact_sensitive_json_scalars : Text → Option Text

abbrev pub path_marker : Text
path_marker = ascii "[REDACTED:path]"

abbrev pub json_secret_marker : Text
json_secret_marker = ascii "[REDACTED:secret]"

-- strings.Contains(text, part)
unfoldable pub contains_text : Text → Text → Bool
contains_text part [] = has_prefix [] part
contains_text part (x ∷ text) = has_prefix (x ∷ text) part || contains_text part text

-- A backslash and a quote.
abbrev escaped_quote : Text
escaped_quote = 92 ∷ 34 ∷ []

abbrev quote_of : Text → Text → Text
quote_of name value =
    if contains_text escaped_quote name || has_prefix value escaped_quote
    then escaped_quote
    else 34 ∷ []

abbrev last_byte : ℕ → Text → ℕ
last_byte x [] = x
last_byte x (y ∷ text) = last_byte y text

-- The value stands between two quotes of one kind.
abbrev quote_around : Text → Option ℕ
quote_around [] = none
quote_around (x ∷ []) = none
quote_around (x ∷ y ∷ text) =
    if (x == 34 && last_byte y text == 34) || (x == 39 && last_byte y text == 39)
    then some x
    else none

abbrev is_absent : Text → Bool
is_absent [] = true
is_absent (_ ∷ _) = false

module _ (library : Library) where
  -- The match stays where the expression finds no second group.
  abbrev redacted_field : Text → List Text → Text
  redacted_field match (whole ∷ name ∷ value ∷ rest) =
      let quote = quote_of name (library.trim_space value) in
      name ++ (quote ++ (json_secret_marker ++ quote))
  redacted_field match _ = match

  unfoldable pub redact_json_secret_field : Pattern → Text → Text
  redact_json_secret_field field match =
      redacted_field match (library.find_string_submatch field match)

  abbrev assigned : Text → Option ℕ → Text
  assigned name none = name ++ json_secret_marker
  assigned name (some quote) = name ++ (quote ∷ (json_secret_marker ++ (quote ∷ [])))

  -- The source takes the groups of a match to be there, and would panic where they are not.
  abbrev redacted_assignment : Text → List Text → Text
  redacted_assignment match (whole ∷ name ∷ value ∷ rest) =
      assigned name (quote_around (library.trim_space value))
  redacted_assignment match _ = match

  unfoldable pub redact_generic_assignment : Text → Text
  redact_generic_assignment match =
      redacted_assignment match (library.find_string_submatch generic_assign match)

  abbrev reveals : Option Url → Bool
  reveals none = false
  reveals (some url) =
      not (is_absent url.scheme)
      && (url.has_user
          || not (is_absent url.raw_query)
          || url.force_query
          || not (is_absent url.fragment))

  unfoldable pub is_secret_url : Text → Bool
  is_secret_url candidate = reveals (library.parse candidate)

  unfoldable pub redact_secret_urls : Text → Text
  redact_secret_urls text =
      library.replace_all_string_func url_candidate text
        (λ candidate. if is_secret_url candidate then ascii "[REDACTED:url]" else candidate)

  abbrev or_same : Text → Option Text → Text
  or_same text none = text
  or_same text (some redacted) = redacted

  -- The first four replacements.
  unfoldable pub redact_headers : Text → Text
  redact_headers text =
      let a = library.replace_all_string private_key_block text (ascii "[REDACTED:private-key]") in
      let b = library.replace_all_string authorization a (ascii "${1}[REDACTED:authorization]") in
      let c = library.replace_all_string cookie_header b (ascii "${1}[REDACTED:cookie]") in
      library.replace_all_string session_cookie c (ascii "${1}[REDACTED:cookie]")

  unfoldable pub redact_generic_secrets : Text → Text
  redact_generic_secrets text =
      let a = redact_headers text in
      let b = or_same a (library.redact_sensitive_json_scalars a) in
      let c =
        library.replace_all_string_func json_secret_field b
          (λ match. redact_json_secret_field json_secret_field match) in
      let d =
        library.replace_all_string_func json_generic_secret_field c
          (λ match. redact_json_secret_field json_generic_secret_field match) in
      let e = library.replace_all_string_func generic_assign d redact_generic_assignment in
      let f = library.replace_all_string openai_key e (ascii "[REDACTED:api-key]") in
      redact_secret_urls (library.replace_all_string jwt f (ascii "[REDACTED:jwt]"))

  unfoldable pub redact_freeform_paths : Text → Text
  redact_freeform_paths text =
      library.replace_all_string unix_path
        (library.replace_all_string windows_path text path_marker) (ascii "${1}" ++ path_marker)

  -- RedactString of a PathSanitizer, which is not nil.
  unfoldable pub sanitize_string : Text → Text
  sanitize_string [] = []
  sanitize_string (x ∷ text) = redact_freeform_paths (x ∷ text)

  -- With a sanitizer of paths or without one.
  unfoldable pub redact_patterns : Bool → Text → Text
  redact_patterns has_paths text =
      redact_generic_secrets
        (if has_paths then sanitize_string text else redact_freeform_paths text)
