-- ===== src/Pending/Lookups.antt =====
-- gateway/internal/pending/types.go: what the Manager finds.
use codex_runtime.Base.{
  ℕ, ◌+◌, ◌≤◌, ◌<◌, ◌≡◌, Text, text_eq, text_eq_iff, text_eq_refl, true, false, Option, none, some,
  List, [], ◌∷◌, Map, lookup, lookup-insert, HasKeys, if◌then◌else◌, arith, Option-cases,
  Bool-cases, inl, inr, is_some, u64, lookup-insert_self, subst,
}
use codex_runtime.Pending.Records.{Record, is_empty, request_id_key, pending_id}
use codex_runtime.Pending.Manager.{
  Manager, ids_of, first_active, active_by_index, active_by_server_request_id, scan, or_else,
  active_by_resolved_server_request_id, get, add, added_record,
}
use codex_runtime.Pending.Indexes.{IsIndex, times, is_listed}
use codex_runtime.Pending.Histories.{IsConsistent, server_id, jsonrpc_key, pending_id-fresh}

module _ {Value : Type 0} where
  first_active-found :
      (ids : List Text) (requests : Map (Record Value)) (id : Text) (r : Record Value)
      → lookup id requests ≡ some r
      → r.active ≡ true
      → 1 ≤ times id ids
      → is_some (first_active ids requests) ≡ true
  unfolding first_active
  first_active-found [] requests id r h on t = absurd (omega (arith, t))
  first_active-found (j ∷ ids) requests id r h on t =
      ground (arith, text_eq_iff j id, first_active-found ids requests id r h on)

  -- A request that is found stands in the map, is active and has the key.
  pub record Fits (key_of : Record Value → Text) (key : Text) (requests : Map (Record Value))
      (r : Record Value) : Type 0 where
    pub id : Text
    pub stands : lookup id requests ≡ some r
    pub on : r.active ≡ true
    pub has_key : key_of r ≡ key

  first_active-Fits :
      (ids : List Text) (requests : Map (Record Value)) (key_of : Record Value → Text) (key : Text)
      → ((id : Text) → 1 ≤ times id ids → is_listed key_of key (lookup id requests) ≡ true)
      → (r : Record Value) → first_active ids requests ≡ some r
      → Fits key_of key requests r
  unfolding first_active
  first_active-Fits [] requests key_of key listed r h = cc
  first_active-Fits (j ∷ ids) requests key_of key listed r h =
      elim (Option-cases (lookup j requests)) [
        | inl p ↦ absurd (ground (arith, p, listed j (ground (arith, text_eq_refl j))))
        | inr (s, p) ↦
            let at_head : is_listed key_of key (some s) ≡ true =
              subst (λ o. is_listed key_of key o ≡ true) p
                (listed j (ground (arith, text_eq_refl j))) in
            record {
              id = j;
              stands = ground (arith, p, h, at_head);
              on = ground (arith, p, h, at_head);
              has_key = ground (arith, p, h, at_head, text_eq_iff (key_of s) key);
            }
      ]

  module _ (key_of : Record Value → Text) (index : Map (List Text)) (m : Manager Value)
      (v : IsIndex key_of m.requests index) where
    index-listed :
        (key id : Text)
        → 1 ≤ times id (ids_of (lookup key index))
        → is_listed key_of key (lookup id m.requests) ≡ true
    index-listed key id h = ground (arith, v.listed key id)

    active_by_index-found :
        (id : Text) (r : Record Value)
        → lookup id m.requests ≡ some r
        → r.active ≡ true
        → is_empty (key_of r) ≡ false
        → is_some (active_by_index index (key_of r) m) ≡ true
    unfolding active_by_index
    active_by_index-found id r h on key = ground (
      arith,
      h,
      text_eq_refl (key_of r),
      v.listed (key_of r) id,
      first_active-found (ids_of (lookup (key_of r) index)) m.requests id r h on,
    )

    active_by_index-Fits :
        (key : Text) (r : Record Value)
        → active_by_index index key m ≡ some r
        → Fits key_of key m.requests r
    unfolding active_by_index
    active_by_index-Fits key r h =
        first_active-Fits (ids_of (lookup key index)) m.requests key_of key (index-listed key) r
          (ground arith)

  -- In a manager whose indexes are consistent, a request that is found by an id of the app server is
  -- active, stands in the map of requests and has that id.
  pub active_by_server_request_id-Fits :
      {n : ℕ} (key : Text) (m : Manager Value) (r : Record Value)
      → IsConsistent n m
      → active_by_server_request_id key m ≡ some r
      → Fits server_id key m.requests r
  unfolding active_by_server_request_id
  active_by_server_request_id-Fits key m r v h =
      active_by_index-Fits server_id m.active_by_server_id m v.by_server key r (ground arith)

  -- In a manager whose indexes are consistent, for every active request that has an id of the app
  -- server, which is not empty, an active request is found by that id.
  pub active_by_server_request_id-found :
      {n : ℕ} (m : Manager Value) (id : Text) (r : Record Value)
      → IsConsistent n m
      → lookup id m.requests ≡ some r
      → r.active ≡ true
      → is_empty r.app_server_request_id ≡ false
      → is_some (active_by_server_request_id r.app_server_request_id m) ≡ true
  unfolding active_by_server_request_id
  active_by_server_request_id-found m id r v h on key = ground (
    arith,
    key,
    active_by_index-found server_id m.active_by_server_id m v.by_server id r h on key,
  )

  Fits-later :
      {key_of : Record Value → Text} {key : Text} (id : Text) (s : Record Value)
      (rs : Map (Record Value)) (r : Record Value)
      → lookup id rs ≡ none
      → Fits key_of key rs r
      → Fits key_of key ((id, s) ∷ rs) r
  unfolding lookup
  Fits-later id s rs r new v = record {
    id = v.id;
    stands = ground (arith, text_eq_iff id v.id, new, v.stands);
    on = v.on;
    has_key = v.has_key;
  }

  scan-Fits :
      (key : Text) (requests : Map (Record Value)) (r : Record Value)
      → HasKeys requests
      → (scan key requests).0 ≡ some r
      → Fits jsonrpc_key key requests r
  unfolding scan lookup
  scan-Fits key [] r u h = cc
  scan-Fits key ((id, s) ∷ rs) r u h =
      elim (Bool-cases (text_eq (request_id_key s.jsonrpc_id) key)) [
        | inr p ↦ Fits-later id s rs r u.0 (scan-Fits key rs r u.1 (ground arith))
        | inl p ↦ elim (Bool-cases s.active) [
          | inr q ↦ Fits-later id s rs r u.0 (scan-Fits key rs r u.1 (ground arith))
          | inl q ↦ record {
            id = id;
            stands = ground (arith, text_eq_refl id);
            on = ground arith;
            has_key = ground (arith, text_eq_iff (request_id_key s.jsonrpc_id) key);
          }
        ]
      ]

  -- The same without the loop over all requests, but for whether one has the id.
  unfoldable pub by_indexes : (Text → Text) → Text → Manager Value → Option (Record Value)
  by_indexes normalize jsonrpc_id m =
      let key = request_id_key jsonrpc_id in
      let seen = (scan key m.requests).1 in
      let later = active_by_server_request_id (normalize jsonrpc_id) m in
      if is_empty key
      then none
      else or_else (active_by_index m.active_by_jsonrpc_id key m) (if seen then none else later)

  -- In a manager whose indexes are consistent, the lookup of a resolved request finds what it finds
  -- without the loop over all requests, of which only whether some request has the id counts: the loop
  -- comes upon no active request that the index does not list.
  pub active_by_resolved_server_request_id-by_indexes :
      {n : ℕ} (normalize : Text → Text) (jsonrpc_id : Text) (m : Manager Value)
      → IsConsistent n m
      → active_by_resolved_server_request_id normalize jsonrpc_id m
        ≡ by_indexes normalize jsonrpc_id m
  unfolding active_by_resolved_server_request_id by_indexes
  active_by_resolved_server_request_id-by_indexes normalize jsonrpc_id m v =
      elim (Option-cases (scan (request_id_key jsonrpc_id) m.requests).0) [
        | inl p ↦ ground (arith, p)
        | inr (r, p) ↦
            let f = scan-Fits (request_id_key jsonrpc_id) m.requests r v.unique p in
            ground (
              arith,
              p,
              f.has_key,
              active_by_index-found jsonrpc_key m.active_by_jsonrpc_id m v.by_jsonrpc f.id r
                  f.stands f.on,
            )
      ]

  -- A request that is added to a manager whose indexes are consistent, with fewer than 2^64 - 1
  -- requests before it, gets an id that no earlier request has, is found by it, active and carrying
  -- it, and leaves what is found by every other id.
  pub get-add :
      {n : ℕ} (r : Record Value) (m : Manager Value) (other : Text)
      → IsConsistent n m
      → n + 1 < 18446744073709551616
      → (get (add r m).1 m ≡ none)
        × (get (add r m).1 (add r m).0 ≡ some (added_record (add r m).1 r))
        × (get other (add r m).0 ≡ (
            if text_eq (add r m).1 other then some (added_record (add r m).1 r) else get other m))
  unfolding get add
  get-add r m other v small =
      let id = pending_id (u64 (m.next_seq + 1)) in
      (
        pending_id-fresh m small v,
        lookup-insert_self id (added_record id r) m.requests,
        lookup-insert id other (added_record id r) m.requests,
      )
