-- ===== src/Pending/Grants.antt =====
-- gateway/internal/pending/response.go: what mergePermissionGrant puts together, told by the grants
-- alone.
use codex_runtime.Base.{
  ◌≡◌, Text, text_eq, Bool, true, false, ◌&&◌, ◌||◌, Option, none, some, List, [], ◌∷◌, Map, lookup,
  if◌then◌else◌, All, ascii,
}
use codex_runtime.Pending.Records.{PermissionGrant, is_empty}
use codex_runtime.Pending.Responses.{Values, fields_of}

-- What Go's type switch tells of values that were made: an object and an array are what they were
-- made of, and an array is not nil.
pub record IsLawful {Value : Type 0} (values : Values Value) : Type 0 where
  pub object_read : (m : Map Value) → values.as_object (values.object m) ≡ some m
  pub array_read : (vs : List Value) → values.as_array (values.array vs) ≡ some vs
  pub array_made : (vs : List Value) → values.is_nil (values.array vs) ≡ false

-- A value that is neither nil nor an array.
pub record IsScalar {Value : Type 0} (values : Values Value) (v : Value) : Type 0 where
  pub not_nil : values.is_nil v ≡ false
  pub not_array : values.as_array v ≡ none

module _ {Value : Type 0} where
  abbrev pub section_of : PermissionGrant Value → Text
  section_of g = if is_empty g.section then g.kind else g.section

  abbrev pub is_at : Text → Text → PermissionGrant Value → Bool
  is_at section field g = text_eq (section_of g) section && text_eq g.field field

  -- The values that the grants have for a field of a section, in order.
  unfoldable pub values_at : Text → Text → List (PermissionGrant Value) → List Value
  values_at section field [] = []
  values_at section field (g ∷ gs) =
      let rest = values_at section field gs in
      if is_at section field g then g.value ∷ rest else rest

  -- Whether one of the grants is for the section.
  unfoldable pub names : Text → List (PermissionGrant Value) → Bool
  names section [] = false
  names section (g ∷ gs) = text_eq (section_of g) section || names section gs

  -- The grants for the section are for single fields of it.
  abbrev pub InFields : Text → List (PermissionGrant Value) → Type 0
  InFields section = All λ g. text_eq (section_of g) section ≡ true → is_empty g.field ≡ false

  abbrev pub last_of : Option Value → List Value → Option Value
  last_of before [] = before
  last_of before (v ∷ vs) = last_of (some v) vs

-- The fields that hold lists.
abbrev pub is_listed : Text → Bool
is_listed field =
    text_eq field (ascii "read") || text_eq field (ascii "write") || text_eq field (ascii "entries")

module _ {Value : Type 0} (values : Values Value) where
  abbrev pub listed : List Value → Option Value
  listed [] = none
  listed (v ∷ vs) = some (values.array (v ∷ vs))

  -- What a field holds: the fields of lists hold all values that were granted for them, the others
  -- the last one.
  abbrev pub held : Text → List Value → Option Value
  held field vs = if is_listed field then listed vs else last_of none vs

  -- The field of the section in what was put together.
  abbrev pub field_at : Text → Text → Map Value → Option Value
  field_at section field m = lookup field (fields_of values (lookup section m))
