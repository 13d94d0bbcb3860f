-- ===== src/Pending/Merges.antt =====
-- gateway/internal/pending/response.go: mergePermissionGrant over a list of grants.
use codex_runtime.Base.{
  ◌≡◌, ◌∙◌, ap, Text, text_eq, text_eq_iff, true, false, ◌||◌, Option, none, some, is_some, List,
  [], ◌∷◌, Map, lookup, insert, lookup-insert, if◌then◌else◌, All, arith, Bool-cases, inl, inr,
  append_assoc, append-nil, ◌++◌, subst, sym, refl,
}
use codex_runtime.Pending.Records.{PermissionGrant, is_empty}
use codex_runtime.Pending.Responses.{
  Values, fields_of, is_list_field, merged_value, merge_permission_grant,
}
use codex_runtime.Pending.Grants.{
  IsLawful, IsScalar, section_of, is_at, values_at, names, InFields, last_of, is_listed, listed,
  held, field_at,
}

module _ {Value : Type 0} (values : Values Value) where
  abbrev read_fields : Option (Map Value) → Map Value
  read_fields none = []
  read_fields (some fields) = fields

  unfoldable pub merge_all : Map Value → List (PermissionGrant Value) → Map Value
  merge_all target [] = target
  merge_all target (g ∷ gs) = merge_all (merge_permission_grant values target g) gs

  -- The fields of a section once a grant for one of them is added.
  abbrev fields_with : Map Value → PermissionGrant Value → Map Value
  fields_with target g =
      let fields = fields_of values (lookup (section_of g) target) in
      insert g.field (merged_value values g.field g.value (lookup g.field fields)) fields

  names-merge :
      (section : Text) (target : Map Value) (g : PermissionGrant Value)
      → is_some (lookup section (merge_permission_grant values target g))
        ≡ (text_eq (section_of g) section || is_some (lookup section target))
  unfolding merge_permission_grant
  names-merge section target g = ground (
    arith,
    lookup-insert (section_of g) section g.value target,
    lookup-insert (section_of g) section (values.object (fields_with target g)) target,
  )

  field_at-other :
      (section field : Text) (target : Map Value) (g : PermissionGrant Value)
      → text_eq (section_of g) section ≡ false
      → field_at values section field (merge_permission_grant values target g)
        ≡ field_at values section field target
  unfolding merge_permission_grant
  field_at-other section field target g p =
      ap (λ o. lookup field (fields_of values o))
        (ground (
          arith,
          p,
          lookup-insert (section_of g) section g.value target,
          lookup-insert (section_of g) section (values.object (fields_with target g)) target,
        ))

  merge-fields :
      (target : Map Value) (g : PermissionGrant Value)
      → is_empty g.field ≡ false
      → merge_permission_grant values target g
        ≡ insert (section_of g) (values.object (fields_with target g)) target
  unfolding merge_permission_grant
  merge-fields target g h = ground (arith, h)

  -- A grant for a field of the section.
  field_at-own :
      IsLawful values
      → (section field : Text) (target : Map Value) (g : PermissionGrant Value)
      → section_of g ≡ section
      → is_empty g.field ≡ false
      → field_at values section field (merge_permission_grant values target g) ≡ (
          if is_at section field g
          then some (merged_value values g.field g.value (field_at values section g.field target))
          else field_at values section field target)
  field_at-own law section field target g same h =
      let new = values.object (fields_with target g) in
      let found : lookup section (insert (section_of g) new target) ≡ some new = ground (
        arith,
        same,
        text_eq_iff (section_of g) section,
        lookup-insert (section_of g) section new target,
      ) in
      let read : field_at values section field (merge_permission_grant values target g)
          ≡ lookup field (fields_with target g) =
        ap (λ m. field_at values section field m) (merge-fields target g h)
        ∙ ap (λ o. lookup field (fields_of values o)) found
        ∙ ap (λ o. lookup field (read_fields o)) (law.object_read (fields_with target g)) in
      let fields = fields_of values (lookup section target) in
      let inserted =
        lookup-insert g.field field (merged_value values g.field g.value (lookup g.field fields))
          fields in
      let named : lookup field (fields_with target g)
          ≡ lookup field (
              insert g.field (merged_value values g.field g.value (lookup g.field fields)) fields) =
        ap
          (λ name. lookup field (
            insert g.field
              (merged_value values g.field g.value
                (lookup g.field (fields_of values (lookup name target))))
              (fields_of values (lookup name target))))
          same in
      read ∙ named ∙ inserted ∙ ground (arith, same, text_eq_iff (section_of g) section)

  field_at-merge :
      IsLawful values
      → (section field : Text) (target : Map Value) (g : PermissionGrant Value)
      → (text_eq (section_of g) section ≡ true → is_empty g.field ≡ false)
      → field_at values section field (merge_permission_grant values target g) ≡ (
          if is_at section field g
          then some (merged_value values g.field g.value (field_at values section g.field target))
          else field_at values section field target)
  field_at-merge law section field target g h = elim (Bool-cases (text_eq (section_of g) section)) [
    | inr p ↦ field_at-other section field target g p ∙ ground (arith, p)
    | inl p ↦
        field_at-own law section field target g ((text_eq_iff (section_of g) section).0 p) (h p)
  ]

  merged-listed :
      IsLawful values
      → (field : Text) (v : Value) (before : List Value) → is_list_field values field ≡ true
      → some (merged_value values field v (listed values before))
        ≡ listed values (before ++ (v ∷ []))
  merged-listed law field v [] h = ground (arith, h)
  merged-listed law field v (x ∷ before) h =
      ground (arith, law.array_made (x ∷ before), law.array_read (x ∷ before))

  abbrev IsNoneOrScalar : Option Value → Type 0
  IsNoneOrScalar none = Unit
  IsNoneOrScalar (some v) = IsScalar values v

  merged-scalar :
      (field : Text) (v : Value) (before : Option Value)
      → is_list_field values field ≡ false
      → IsNoneOrScalar before
      → merged_value values field v before ≡ v
  merged-scalar field v none h s = ground (arith, h)
  merged-scalar field v (some w) h s = ground (arith, h, s.not_nil, s.not_array)

  pub names-merge_all :
      (section : Text) (target : Map Value) (gs : List (PermissionGrant Value))
      → is_some (lookup section (merge_all target gs))
        ≡ (names section gs || is_some (lookup section target))
  unfolding merge_all names
  names-merge_all section target [] = refl
  names-merge_all section target (g ∷ gs) = ground (
    arith,
    names-merge_all section (merge_permission_grant values target g) gs,
    names-merge section target g,
  )

  lists-merge_all :
      IsLawful values
      → (section field : Text) (before : List Value) (target : Map Value)
      → (gs : List (PermissionGrant Value)) → is_list_field values field ≡ true
      → InFields section gs
      → field_at values section field target ≡ listed values before
      → field_at values section field (merge_all target gs)
        ≡ listed values (before ++ values_at section field gs)
  unfolding merge_all values_at
  lists-merge_all law section field before target [] h k e =
      e ∙ ap (listed values) (sym (append-nil before))
  lists-merge_all law section field before target (g ∷ gs) h k e =
      let next = merge_permission_grant values target g in
      let step = field_at-merge law section field target g k.0 in
      elim (Bool-cases (is_at section field g)) [
        | inl p ↦
            let same : g.field ≡ field = ground (arith, p, text_eq_iff g.field field) in
            let now : field_at values section field next
                ≡ listed values (before ++ (g.value ∷ [])) =
              step
              ∙ ground (arith, p)
              ∙ ap (λ f. some (merged_value values f g.value (field_at values section f target)))
                  same
              ∙ ap (λ o. some (merged_value values field g.value o)) e
              ∙ merged-listed law field g.value before h in
            lists-merge_all law section field (before ++ (g.value ∷ [])) next gs h k.1 now
            ∙ ap (listed values) (append_assoc before (g.value ∷ []) (values_at section field gs))
            ∙ ap (λ vs. listed values (before ++ vs)) (ground (arith, p))
        | inr p ↦
            lists-merge_all law section field before next gs h k.1 (step ∙ ground (arith, p, e))
            ∙ ap (λ vs. listed values (before ++ vs)) (ground (arith, p))
      ]

  scalars-merge_all :
      IsLawful values
      → (section field : Text) (before : Option Value) (target : Map Value)
      → (gs : List (PermissionGrant Value)) → is_list_field values field ≡ false
      → InFields section gs
      → All (IsScalar values) (values_at section field gs)
      → IsNoneOrScalar before
      → field_at values section field target ≡ before
      → field_at values section field (merge_all target gs)
        ≡ last_of before (values_at section field gs)
  unfolding merge_all values_at
  scalars-merge_all law section field before target [] h k all s e = e
  scalars-merge_all law section field before target (g ∷ gs) h k all s e =
      let next = merge_permission_grant values target g in
      let rest = values_at section field gs in
      let step = field_at-merge law section field target g k.0 in
      elim (Bool-cases (is_at section field g)) [
        | inl p ↦
            let same : g.field ≡ field = ground (arith, p, text_eq_iff g.field field) in
            let more : values_at section field (g ∷ gs) ≡ g.value ∷ rest = ground (arith, p) in
            let both = subst (All (IsScalar values)) more all in
            let now : field_at values section field next ≡ some g.value =
              step
              ∙ ground (arith, p)
              ∙ ap (λ f. some (merged_value values f g.value (field_at values section f target)))
                  same
              ∙ ap (λ o. some (merged_value values field g.value o)) e
              ∙ ap some (merged-scalar field g.value before h s) in
            scalars-merge_all law section field (some g.value) next gs h k.1 both.1 both.0 now
            ∙ ap (last_of before) (sym more)
        | inr p ↦
            let less : values_at section field (g ∷ gs) ≡ rest = ground (arith, p) in
            scalars-merge_all law section field before next gs h k.1
              (subst (All (IsScalar values)) less all) s (step ∙ ground (arith, p, e))
            ∙ ap (last_of before) (sym less)
      ]

  -- What the fields of an empty map hold after the grants.
  pub held-merge_all :
      IsLawful values
      → (section field : Text) (gs : List (PermissionGrant Value)) → InFields section gs
      → (is_listed field ≡ false → All (IsScalar values) (values_at section field gs))
      → field_at values section field (merge_all [] gs)
        ≡ held values field (values_at section field gs)
  unfolding lookup
  held-merge_all law section field gs k all =
      let same : is_list_field values field ≡ is_listed field = ground arith in
      elim (Bool-cases (is_listed field)) [
        | inl p ↦ lists-merge_all law section field [] [] gs (same ∙ p) k refl ∙ ground (arith, p)
        | inr p ↦
            scalars-merge_all law section field none [] gs (same ∙ p) k (all p) tt refl
            ∙ ground (arith, p)
      ]
