-- ===== src/Pending/Histories.antt =====
-- gateway/internal/pending/types.go: the Manager over whole histories of adding and resolving.
use codex_runtime.Base.{
  ℕ, ◌+◌, ◌≤◌, ◌<◌, ◌≡◌, refl, subst, Text, text_eq, text_eq_iff, false, none, some, List, [], ◌∷◌,
  lookup, lookup-insert, HasKeys, HasKeys-insert, arith, Option-cases, Bool-cases, inl, inr, length,
  u64, strconv_uint-injective,
}
use codex_runtime.Pending.Records.{Record, request_id_key, pending_id}
use codex_runtime.Pending.Manager.{Manager, new_manager, add, added_record, mark_resolved}
use codex_runtime.Pending.Indexes.{IsIndex, index_id-IsIndex, remove_active_id-IsIndex}

pub pending_id-injective :
    (i j : ℕ)
    → i < 18446744073709551616
    → j < 18446744073709551616
    → pending_id i ≡ pending_id j
    → i ≡ j
unfolding pending_id
pending_id-injective i j hi hj p = strconv_uint-injective i j hi hj (ground arith)

module _ {Value : Type 0} where
  abbrev pub server_id : Record Value → Text
  server_id r = r.app_server_request_id

  abbrev pub jsonrpc_key : Record Value → Text
  jsonrpc_key r = request_id_key r.jsonrpc_id

  -- The number that an id was made from, no more than the last one.
  pub record Numbered (id : Text) (r : Record Value) (last : ℕ) : Type 0 where
    pub number : ℕ
    pub made : id ≡ pending_id number
    pub earlier : number ≤ last
    pub own : r.pending.pending_request_id ≡ id

  pub record IsConsistent (n : ℕ) (m : Manager Value) : Type 0 where
    pub bounded : m.next_seq ≤ n
    pub unique : HasKeys m.requests
    pub numbered :
        (id : Text) (r : Record Value) → lookup id m.requests ≡ some r → Numbered id r m.next_seq
    pub by_server : IsIndex server_id m.requests m.active_by_server_id
    pub by_jsonrpc : IsIndex jsonrpc_key m.requests m.active_by_jsonrpc_id

  pub pending_id-fresh :
      {n : ℕ} (m : Manager Value)
      → n + 1 < 18446744073709551616
      → IsConsistent n m
      → lookup (pending_id (u64 (m.next_seq + 1))) m.requests ≡ none
  pending_id-fresh m small v =
      elim (Option-cases (lookup (pending_id (u64 (m.next_seq + 1))) m.requests)) [
        | inl p ↦ p
        | inr (r, p) ↦
            let old = v.numbered _ r p in
            absurd (
              omega (
                arith,
                v.bounded,
                old.earlier,
                small,
                pending_id-injective (u64 (m.next_seq + 1)) old.number
                    (omega (arith, small, v.bounded)) (omega (arith, v.bounded, old.earlier, small))
                    old.made,
              ))
      ]

  later-Numbered :
      {id : Text} {r : Record Value} {last : ℕ} (next : ℕ)
      → last ≤ next
      → Numbered id r last
      → Numbered id r next
  later-Numbered next h v = record {
    number = v.number;
    made = v.made;
    earlier = omega (arith, h, v.earlier);
    own = v.own;
  }

  add-IsConsistent :
      {n : ℕ} (r : Record Value) (m : Manager Value)
      → n + 1 < 18446744073709551616
      → IsConsistent n m
      → IsConsistent (n + 1) (add r m).0
  unfolding add added_record
  add-IsConsistent r m small v =
      let grown : u64 (m.next_seq + 1) ≡ m.next_seq + 1 = omega (arith, v.bounded, small) in
      let id = pending_id (u64 (m.next_seq + 1)) in
      let r' : Record Value = added_record id r in
      let fresh = pending_id-fresh m small v in
      record {
        bounded = omega (arith, v.bounded, grown);
        unique = HasKeys-insert id r' m.requests v.unique;
        numbered = λ j s h. elim (Bool-cases (text_eq id j)) [
          | inl p ↦ record {
            number = u64 (m.next_seq + 1);
            made = ground (arith, text_eq_iff id j, p);
            earlier = omega arith;
            own = ground (arith, text_eq_iff id j, p, h, lookup-insert id j r' m.requests);
          }
          | inr p ↦
              later-Numbered (u64 (m.next_seq + 1)) (omega (arith, grown))
                (v.numbered j s (ground (arith, p, h, lookup-insert id j r' m.requests)))
        ];
        by_server =
            index_id-IsIndex server_id id r' m.requests m.active_by_server_id fresh refl
              v.by_server;
        by_jsonrpc =
            index_id-IsIndex jsonrpc_key id r' m.requests m.active_by_jsonrpc_id fresh refl
              v.by_jsonrpc;
      }

  mark_resolved-IsConsistent :
      {n : ℕ} (id : Text) (m : Manager Value)
      → IsConsistent n m
      → IsConsistent n (mark_resolved id m)
  unfolding mark_resolved
  mark_resolved-IsConsistent id m v = elim (Option-cases (lookup id m.requests)) [
    | inl p ↦ rw p v
    | inr (r, p) ↦ rw p (
        let off : Record Value = record r { active = false } in
        record {
          bounded = v.bounded;
          unique = HasKeys-insert id off m.requests v.unique;
          numbered = λ j s h. elim (Bool-cases (text_eq id j)) [
            | inl q ↦
                let old = v.numbered id r p in
                record {
                  number = old.number;
                  made = ground (arith, text_eq_iff id j, q, old.made);
                  earlier = old.earlier;
                  own =
                      ground
                        (arith, text_eq_iff id j, q, h, old.own, lookup-insert id j off m.requests);
                }
            | inr q ↦ v.numbered j s (ground (arith, q, h, lookup-insert id j off m.requests))
          ];
          by_server =
              remove_active_id-IsIndex server_id id r off m.requests m.active_by_server_id p refl
                v.by_server;
          by_jsonrpc =
              remove_active_id-IsIndex jsonrpc_key id r off m.requests m.active_by_jsonrpc_id p refl
                v.by_jsonrpc;
        })
  ]

pub data Change (Value : Type 0) : Type 0 where
  adds : Record Value → Change Value
  resolves : Text → Change Value

module _ {Value : Type 0} where
  unfoldable pub change : Manager Value → Change Value → Manager Value
  change m (adds r) = (add r m).0
  change m (resolves id) = mark_resolved id m

  unfoldable pub changes : Manager Value → List (Change Value) → Manager Value
  changes m [] = m
  changes m (c ∷ cs) = changes (change m c) cs

  weaken-IsConsistent : {n : ℕ} (m : Manager Value) → IsConsistent n m → IsConsistent (n + 1) m
  weaken-IsConsistent m v = record {
    bounded = omega (arith, v.bounded);
    unique = v.unique;
    numbered = v.numbered;
    by_server = v.by_server;
    by_jsonrpc = v.by_jsonrpc;
  }

  change-IsConsistent :
      {n : ℕ} (c : Change Value) (m : Manager Value)
      → n + 1 < 18446744073709551616
      → IsConsistent n m
      → IsConsistent (n + 1) (change m c)
  unfolding change
  change-IsConsistent (adds r) m small v = add-IsConsistent r m small v
  change-IsConsistent (resolves id) m small v =
      weaken-IsConsistent _ (mark_resolved-IsConsistent id m v)

  changes-IsConsistent_from :
      (cs : List (Change Value)) {n : ℕ} (m : Manager Value)
      → n + length cs < 18446744073709551616
      → IsConsistent n m
      → IsConsistent (n + length cs) (changes m cs)
  unfolding changes
  changes-IsConsistent_from [] {n} m small v = subst (λ k. IsConsistent k m) (omega arith) v
  changes-IsConsistent_from (c ∷ cs) {n} m small v =
      subst (λ k. IsConsistent k (changes (change m c) cs)) (omega arith)
        (changes-IsConsistent_from cs (change m c) (omega (arith, small))
          (change-IsConsistent c m (omega (arith, small)) v))

  new_manager-IsConsistent : IsConsistent 0 (new_manager {Value = Value})
  unfolding new_manager lookup
  new_manager-IsConsistent = record {
    bounded = omega arith;
    unique = tt;
    numbered = λ id r h. cc;
    by_server = record { listed = λ key id. refl };
    by_jsonrpc = record { listed = λ key id. refl };
  }

  -- After fewer than 2^64 requests are added to a new manager and resolved, in any order and also
  -- more than once: each request stands under the id that it carries, made from a number of its own;
  -- and each of the two indexes lists under a key exactly the ids of the active requests with that
  -- key, each once, where an empty key lists none.
  pub changes-IsConsistent :
      (cs : List (Change Value))
      → length cs < 18446744073709551616
      → IsConsistent (length cs) (changes new_manager cs)
  changes-IsConsistent cs small =
      subst (λ k. IsConsistent k (changes new_manager cs)) (omega arith)
        (changes-IsConsistent_from cs {n = 0} new_manager (omega (arith, small))
          new_manager-IsConsistent)
