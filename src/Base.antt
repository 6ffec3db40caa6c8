-- ===== src/Base.antt =====
-- The names that the other modules share: those of the libraries, passed on, and the helpers below.
mod Tests
mod Lists
pub mod Int
pub mod Strings
pub mod Decimal
pub mod Bits
pub mod OrderedMap
pub mod Sorting
pub mod Json
pub mod Expected
pub mod SampleJson
pub use Tests.*
pub use Lists.{
  length, get_elem?, get_or, All, length-append, length-map, count_if-append, count_if-le,
  All-append, All-imp,
}
unfoldable pub use Lists.{find_if, count_if}
pub use Int.{ℤ, pos, negsuc, leb_ℤ, ltb_ℤ, eqb_ℤ, pos_part, eqb_ℤ_iff}
unfoldable pub use Strings.{
  Text, text, str_eq, text_ltb, split, empty, contains, starts_with, member, is_alnum, to_lower,
  equals_ignore_case,
}
pub use Strings.{
  str_eq_iff, str_eq_refl, str_eq_comm, split-append, split_none, empty-append, member-append,
  Distinct, equals_ignore_case_iff,
}
pub use Prim.Native.Nat.{ℕ, zero, suc, ◌+◌, ◌-◌, ◌*◌, ◌/◌, ◌%◌, ◌^◌, ◌≤◌, ◌<◌, max}
pub use mathlib.Core.Path.{◌≡◌, refl, sym, ap, ◌∙◌, subst}
pub use mathlib.Core.Logic.{◌≢◌, ◌↔◌, ◌⊎◌, inl, inr}
pub use mathlib.Core.Bool.{Bool, true, false, not, ◌&&◌, ◌||◌}
pub use mathlib.Core.Option.{Option, none, some}
pub use mathlib.Core.List.{List, [], ◌∷◌, ◌++◌, map, append-nil, append_assoc}
pub use native.Mathlib.Omega.{arith}
