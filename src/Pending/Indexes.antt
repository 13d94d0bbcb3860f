-- ===== src/Pending/Indexes.antt =====
-- gateway/internal/pending/types.go: the two indexes of the Manager, from an id of the app server to the
-- active requests that have it.
use codex_runtime.Base.{
  ℕ, ◌+◌, ltb, ◌≡◌, Text, text_eq, text_eq_iff, text_eq_refl, Bool, true, false, not, ◌&&◌, Option,
  none, some, List, [], ◌∷◌, ◌++◌, Map, lookup, insert, lookup-insert, lookup-remove, one_if,
  if◌then◌else◌, arith,
}
use codex_runtime.Pending.Records.{Record, is_empty}
use codex_runtime.Pending.Manager.{ids_of, index_id, without_first, put_ids, remove_active_id}

abbrev pub times : Text → List Text → ℕ
times id [] = 0
times id (j ∷ ids) = one_if (text_eq j id) + times id ids

times-append :
    (id j : Text) (ids : List Text)
    → times id (ids ++ (j ∷ [])) ≡ times id ids + one_if (text_eq j id)
times-append id j [] = omega arith
times-append id j (i ∷ ids) = omega (arith, times-append id j ids)

times-without_first :
    (id j : Text) (ids : List Text)
    → times id (without_first j ids) + one_if (text_eq j id && ltb 0 (times j ids)) ≡ times id ids
unfolding without_first
times-without_first id j [] = ground arith
times-without_first id j (i ∷ ids) =
    ground
      (arith, times-without_first id j ids, text_eq_iff i j, text_eq_iff j id, text_eq_iff i id)

lookup-put_ids :
    (key k : Text) (ids : List Text) (index : Map (List Text))
    → ids_of (lookup k (put_ids key ids index))
      ≡ (if text_eq key k then ids else ids_of (lookup k index))
lookup-put_ids key k [] index = ground (arith, lookup-remove key k index)
lookup-put_ids key k (id ∷ ids) index = ground (arith, lookup-insert key k (id ∷ ids) index)

module _ {Value : Type 0} (key_of : Record Value → Text) where
  abbrev pub is_listed : Text → Option (Record Value) → Bool
  is_listed key none = false
  is_listed key (some r) = r.active && (not (is_empty key) && text_eq (key_of r) key)

  -- Under each key stand the ids of the active requests that have it, each once.
  pub record IsIndex (requests : Map (Record Value)) (index : Map (List Text)) : Type 0 where
    pub listed :
        (key id : Text)
        → times id (ids_of (lookup key index)) ≡ one_if (is_listed key (lookup id requests))

  pub index_id-IsIndex :
      (id : Text) (r : Record Value) (requests : Map (Record Value)) (index : Map (List Text))
      → lookup id requests ≡ none
      → r.active ≡ true
      → IsIndex requests index
      → IsIndex (insert id r requests) (index_id (key_of r) id index)
  unfolding index_id
  index_id-IsIndex id r requests index fresh on v = record {
    listed = λ key j. ground (
      arith,
      v.listed key j,
      fresh,
      on,
      text_eq_iff (key_of r) key,
      text_eq_iff id j,
      lookup-insert id j r requests,
      lookup-insert (key_of r) key (ids_of (lookup (key_of r) index) ++ (id ∷ [])) index,
      times-append j id (ids_of (lookup key index)),
    );
  }

  pub remove_active_id-IsIndex :
      (id : Text) (r off : Record Value) (requests : Map (Record Value)) (index : Map (List Text))
      → lookup id requests ≡ some r
      → off.active ≡ false
      → IsIndex requests index
      → IsIndex
          (insert id off requests)
          (if is_empty (key_of r) then index else remove_active_id index (key_of r) id)
  unfolding remove_active_id
  remove_active_id-IsIndex id r off requests index found done v = record {
    listed = λ key j. ground (
      arith,
      v.listed key j,
      v.listed (key_of r) id,
      found,
      done,
      text_eq_iff (key_of r) key,
      text_eq_iff id j,
      text_eq_refl (key_of r),
      lookup-insert id j off requests,
      lookup-put_ids (key_of r) key (without_first id (ids_of (lookup (key_of r) index))) index,
      times-without_first j id (ids_of (lookup (key_of r) index)),
    );
  }
