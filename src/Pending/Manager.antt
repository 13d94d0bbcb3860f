-- ===== src/Pending/Manager.antt =====
-- gateway/internal/pending/types.go: the Manager. A record is held by the map of requests under its id,
-- which stands for the pointer; a nil manager is not modelled.
use codex_runtime.Base.{
  ℕ, ◌+◌, ltb, Text, text_eq, Bool, true, false, not, Option, none, some, List, [], ◌∷◌, ◌++◌, Map,
  lookup, insert, remove, count_values, if◌then◌else◌, ◌==◌, u64,
}
use codex_runtime.Domain.{PendingRequest}
use codex_runtime.Redact.Strings.{sort_stable}
use codex_runtime.Pending.Records.{Record, is_empty, request_id_key, pending_id}

pub record Manager (Value : Type 0) : Type 0 where
  pub next_seq : ℕ
  pub requests : Map (Record Value)
  pub active_by_server_id : Map (List Text)
  pub active_by_jsonrpc_id : Map (List Text)

-- A key that is missing is an empty list.
abbrev pub ids_of : Option (List Text) → List Text
ids_of none = []
ids_of (some ids) = ids

-- The index with an id added, where the key is not empty.
unfoldable pub index_id : Text → Text → Map (List Text) → Map (List Text)
index_id key id index =
    if is_empty key then index else insert key (ids_of (lookup key index) ++ (id ∷ [])) index

-- The first occurrence of the id is taken out.
unfoldable pub without_first : Text → List Text → List Text
without_first id [] = []
without_first id (j ∷ ids) =
    let rest = without_first id ids in if text_eq j id then ids else j ∷ rest

-- A list that becomes empty is deleted from the index.
abbrev pub put_ids : Text → List Text → Map (List Text) → Map (List Text)
put_ids key [] index = remove key index
put_ids key (id ∷ ids) index = insert key (id ∷ ids) index

unfoldable pub remove_active_id : Map (List Text) → Text → Text → Map (List Text)
remove_active_id index key id = put_ids key (without_first id (ids_of (lookup key index))) index

-- Strings compared byte by byte.
unfoldable pub text_less : Text → Text → Bool
text_less s [] = false
text_less [] (y ∷ t) = true
text_less (x ∷ s) (y ∷ t) = let rest = text_less s t in if x == y then rest else ltb x y

unfoldable pub created_before : PendingRequest → PendingRequest → Bool
created_before a b =
    if a.created_at_unix_ms == b.created_at_unix_ms
    then text_less a.pending_request_id b.pending_request_id
    else ltb a.created_at_unix_ms b.created_at_unix_ms

module _ {Value : Type 0} where
  unfoldable pub new_manager : Manager Value
  new_manager = record {
    next_seq = 0;
    requests = [];
    active_by_server_id = [];
    active_by_jsonrpc_id = [];
  }

  unfoldable pub added_record : Text → Record Value → Record Value
  added_record id r = record r {
    active = true;
    pending = record r.pending { pending_request_id = id };
  }

  unfoldable pub add : Record Value → Manager Value → Manager Value × Text
  add r m =
      let next = u64 (m.next_seq + 1) in
      let id = pending_id next in
      (
        record {
          next_seq = next;
          requests = insert id (added_record id r) m.requests;
          active_by_server_id = index_id r.app_server_request_id id m.active_by_server_id;
          active_by_jsonrpc_id = index_id (request_id_key r.jsonrpc_id) id m.active_by_jsonrpc_id;
        },
        id,
      )

  unfoldable pub get : Text → Manager Value → Option (Record Value)
  get id m = lookup id m.requests

  unfoldable pub active_requests : Map (Record Value) → List PendingRequest
  active_requests [] = []
  active_requests ((id, r) ∷ rs) =
      let rest = active_requests rs in if r.active then r.pending ∷ rest else rest

  unfoldable pub active : Manager Value → List PendingRequest
  active m = sort_stable created_before (active_requests m.requests)

  abbrev pub is_active : Record Value → Bool
  is_active r = r.active

  unfoldable pub active_count : Manager Value → ℕ
  active_count m = count_values is_active m.requests

  abbrev pub if_active : Option (Record Value) → Option (Record Value) → Option (Record Value)
  if_active none later = later
  if_active (some r) later = if r.active then some r else later

  unfoldable pub first_active : List Text → Map (Record Value) → Option (Record Value)
  first_active [] requests = none
  first_active (id ∷ ids) requests = if_active (lookup id requests) (first_active ids requests)

  unfoldable pub active_by_index : Map (List Text) → Text → Manager Value → Option (Record Value)
  active_by_index index key m =
      if is_empty key then none else first_active (ids_of (lookup key index)) m.requests

  unfoldable pub active_by_server_request_id : Text → Manager Value → Option (Record Value)
  active_by_server_request_id id m =
      if is_empty id then none else active_by_index m.active_by_server_id id m

  -- The loop over all requests: an active one under the id, or whether one was there.
  unfoldable pub scan : Text → Map (Record Value) → Option (Record Value) × Bool
  scan key [] = (none, false)
  scan key ((id, r) ∷ rs) =
      let (found, seen) = scan key rs in
      if not (text_eq (request_id_key r.jsonrpc_id) key)
      then (found, seen)
      else if r.active
      then (some r, seen)
      else (found, true)

  -- `normalize` is NormalizeServerRequestID of no id and the one given.
  abbrev pub after_scan :
      Option (Record Value) → Bool → Option (Record Value) → Option (Record Value)
  after_scan (some r) seen later = some r
  after_scan none seen later = if seen then none else later

  abbrev pub or_else : Option (Record Value) → Option (Record Value) → Option (Record Value)
  or_else none later = later
  or_else (some r) later = some r

  unfoldable pub active_by_resolved_server_request_id :
      (Text → Text) → Text → Manager Value → Option (Record Value)
  active_by_resolved_server_request_id normalize jsonrpc_id m =
      let key = request_id_key jsonrpc_id in
      let (found, seen) = scan key m.requests in
      let later = active_by_server_request_id (normalize jsonrpc_id) m in
      if is_empty key
      then none
      else or_else (active_by_index m.active_by_jsonrpc_id key m) (after_scan found seen later)

  abbrev pub resolve : Text → Option (Record Value) → Manager Value → Manager Value
  resolve id none m = m
  resolve id (some r) m = record m {
    requests = insert id (record r { active = false }) m.requests;
    active_by_server_id =
        if is_empty r.app_server_request_id
        then m.active_by_server_id
        else remove_active_id m.active_by_server_id r.app_server_request_id id;
    active_by_jsonrpc_id =
        if is_empty (request_id_key r.jsonrpc_id)
        then m.active_by_jsonrpc_id
        else remove_active_id m.active_by_jsonrpc_id (request_id_key r.jsonrpc_id) id;
  }

  -- MarkResolved of the record under the id.
  unfoldable pub mark_resolved : Text → Manager Value → Manager Value
  mark_resolved id m = resolve id (lookup id m.requests) m

-- What encoding/json and strings say of an id: the string that it is, and whether a text is blank.
module _ (json_string : Text → Option Text) (is_blank : Text → Bool) where
  abbrev string_or_raw : Text → Option Text → Text
  string_or_raw raw none = request_id_key raw
  string_or_raw raw (some s) = if is_blank s then request_id_key raw else s

  unfoldable pub normalize_server_request_id : Text → Text → Text
  normalize_server_request_id raw_id jsonrpc_id =
      if is_blank raw_id then string_or_raw jsonrpc_id (json_string jsonrpc_id) else raw_id
