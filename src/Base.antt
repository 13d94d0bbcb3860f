-- ===== src/Base.antt =====
-- The names that every other module shares: the libraries', passed on, and those of the children.
mod Tests
mod Lists
mod Texts
mod Int
mod Assoc
mod Decimals
pub use Tests.*
unfoldable pub use Lists.{keep_if}
pub use Lists.{
  length, take, drop, length-append, length-take_le, keep_if-append, All, All-append, keep_if-none,
  Holds, Holds-append_left, Holds-append_right, All-Holds,
}
pub use Int.*
unfoldable pub use Texts.{text_eq}
pub use Texts.{Text, ascii, text_eq_iff, text_eq_refl, text_eq-false}
unfoldable pub use Assoc.{lookup, insert, remove, refine, count_values}
pub use Assoc.{
  Map, lookup-insert, lookup-insert_self, lookup-remove, length-insert, length-insert_new,
  length-remove, length-remove_le, length-refine, count-insert_le, count-insert_found, count-refine,
  HasKeys, HasKeys-insert, HasKeys-remove, HasKeys-refine, lookup-refine, lookup-refine-none,
  and_then, count-insert_new, count-insert_like, count-remove, one_if, lookup-empty, remove-empty,
  remove-none,
}
unfoldable pub use Decimals.{strconv_uint, digits_from, number_from}
pub use Decimals.{number-strconv_uint, strconv_uint-injective}
pub use Prim.Native.Nat.{ℕ, zero, suc, ◌+◌, ◌-◌, ◌*◌, ◌/◌, ◌%◌, ◌^◌, ◌≤◌, ◌<◌, min, max}
pub use Prim.Native.String.{String}
pub use mathlib.Core.Path.{◌≡◌, refl, sym, ap, subst, ◌∙◌}
pub use mathlib.Core.Logic.{◌≢◌, ◌↔◌, ◌⊎◌, inl, inr}
pub use mathlib.Core.Bool.{Bool, true, false, not, ◌&&◌, ◌||◌}
pub use mathlib.Core.Option.{Option, none, some}
pub use mathlib.Core.List.{List, [], ◌∷◌, ◌++◌, map, append_assoc, append-nil}
pub use native.Mathlib.Omega.{arith}
