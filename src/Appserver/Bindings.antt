-- ===== src/Appserver/Bindings.antt =====
-- gateway/internal/appserver/dispatcher.go: which call a notification of a start is bound to.
use codex_runtime.Base.{
  ◌≡◌, refl, Text, Bool, not, Option, none, some, List, [], ◌∷◌, ◌++◌, Map, arith, keep_if,
  keep_if-append,
}
use codex_runtime.Appserver.Dispatcher.{PendingCall}
use codex_runtime.Appserver.Responses.{
  first_of, find_call, find_methods, chosen_call, matches_lifecycle, has_expected_lifecycle_id,
  ProvisionalLifecycle, Found,
}

abbrev Entry : Type 0
Entry = Text × PendingCall

-- The pending calls that a notification may be about, a method after the other.
unfoldable pub candidates : List Text → ProvisionalLifecycle → Map PendingCall → List Entry
candidates [] lifecycle calls = []
candidates (method ∷ methods) lifecycle calls =
    keep_if (λ (e : Entry). matches_lifecycle e.1 method lifecycle) calls
    ++ candidates methods lifecycle calls

abbrev expects : Entry → Bool
expects e = has_expected_lifecycle_id e.1

abbrev expects_none : Entry → Bool
expects_none e = not (has_expected_lifecycle_id e.1)

abbrev pub first_key : List Entry → Option Text
first_key [] = none
first_key (e ∷ es) = some e.0

-- The same, those first that expect an id.
abbrev pub preferred : List Text → ProvisionalLifecycle → Map PendingCall → List Entry
preferred methods lifecycle calls =
    keep_if expects (candidates methods lifecycle calls)
    ++ keep_if expects_none (candidates methods lifecycle calls)

abbrev first_found : List Entry → Found
first_found es = record {
  expected = first_key (keep_if expects es);
  fallback = first_key (keep_if expects_none es);
}

first_key-append :
    (xs ys : List Entry) → first_key (xs ++ ys) ≡ first_of (first_key xs) (first_key ys)
first_key-append [] ys = refl
first_key-append (x ∷ xs) ys = refl

find_call-first :
    (method : Text) (lifecycle : ProvisionalLifecycle) (calls : Map PendingCall)
    → find_call method lifecycle calls
      ≡ first_found (keep_if (λ (e : Entry). matches_lifecycle e.1 method lifecycle) calls)
unfolding find_call keep_if
find_call-first method lifecycle [] = refl
find_call-first method lifecycle ((k, call) ∷ calls) =
    ground (arith, find_call-first method lifecycle calls)

find_methods-first :
    (methods : List Text) (lifecycle : ProvisionalLifecycle) (calls : Map PendingCall)
    → find_methods methods lifecycle calls ≡ first_found (candidates methods lifecycle calls)
unfolding find_methods candidates keep_if
find_methods-first [] lifecycle calls = refl
find_methods-first (method ∷ methods) lifecycle calls =
    let here = keep_if (λ (e : Entry). matches_lifecycle e.1 method lifecycle) calls in
    let rest = candidates methods lifecycle calls in
    ground (
      arith,
      find_call-first method lifecycle calls,
      find_methods-first methods lifecycle calls,
      keep_if-append expects here rest,
      keep_if-append expects_none here rest,
      first_key-append (keep_if expects here) (keep_if expects rest),
      first_key-append (keep_if expects_none here) (keep_if expects_none rest),
    )

-- The call that a notification of a start is bound to is the first, in the map's order and with the
-- methods one after the other, of the pending calls whose method and expected ids fit it and that
-- have no announced id yet; where one of these expects an id, it is the first that does.
pub chosen_call-preferred :
    (methods : List Text) (lifecycle : ProvisionalLifecycle) (calls : Map PendingCall)
    → chosen_call methods lifecycle calls ≡ first_key (preferred methods lifecycle calls)
unfolding chosen_call
chosen_call-preferred methods lifecycle calls = ground (
  arith,
  find_methods-first methods lifecycle calls,
  first_key-append (keep_if expects (candidates methods lifecycle calls))
      (keep_if expects_none (candidates methods lifecycle calls)),
)
