-- ===== src/Pending/Checks.antt =====
-- gateway/internal/pending/response.go: what an answer that passes the checks is.
use codex_runtime.Base.{◌≡◌, Text, true, false, none, some, List, [], ◌∷◌, Map, lookup, All, Option}
use codex_runtime.Pending.Records.{PermissionGrant}
use codex_runtime.Pending.Responses.{Values, is_seen}
use codex_runtime.Pending.Merges.{merge_all}

-- No id comes twice, nor is one of those before.
abbrev pub Distinct : List Text → List Text → Type 0
Distinct before [] = Unit
Distinct before (id ∷ ids) = (is_seen id before ≡ false) × Distinct (id ∷ before) ids

module _ {Value : Type 0} where
  abbrev with_grant :
      Option (PermissionGrant Value) → List (PermissionGrant Value) → List (PermissionGrant Value)
  with_grant none gs = gs
  with_grant (some g) gs = g ∷ gs

  -- The grants that the request has for the ids, in their order.
  unfoldable pub selected : Map (PermissionGrant Value) → List Text → List (PermissionGrant Value)
  selected grants [] = []
  selected grants (id ∷ ids) = with_grant (lookup id grants) (selected grants ids)

  -- The request offers the id as one that may be granted.
  abbrev pub IsGrantable : Map (PermissionGrant Value) → Text → Type 0
  IsGrantable grants id =
      (g : PermissionGrant Value) × (lookup id grants ≡ some g) × (g.grantable ≡ true)

module _ {Value : Type 0} (values : Values Value) where
  record Granted (grants : Map (PermissionGrant Value)) (ids : List Text)
      (target merged : Map Value) : Type 0 where
    offered : All (IsGrantable grants) ids
    whole : merged ≡ merge_all values target (selected grants ids)
