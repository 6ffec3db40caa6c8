-- ===== src/Version.antt =====
-- libs/core/src/version.cpp: dotted versions, their order, the constraint on a process and the text
-- forms. A component is never negative: `parse_version` is the only producer of versions from text,
-- and it accepts digits only.
pub mod Order
pub mod RoundTrip
mod Examples
use lab_monitor.Base.{
  ℕ, zero, suc, ◌+◌, ◌-◌, ◌^◌, max, Bool, true, false, not, Option, none, some, List, [], ◌∷◌, ◌++◌,
  ℤ, pos, negsuc, ltb_ℤ, leb_ℤ, eqb_ℤ, ltb, leb, ◌==◌, if◌then◌else◌, length, get_or, Text, text,
  str_eq, empty, split, ◌&&◌,
}
use lab_monitor.Base.Decimal.{to_string, is_digit, digits_value}

pub record Version : Type 0 where
  pub parts : List ℕ

pub data ComparisonOp : Type 0 where
  equal not_equal less less_equal greater greater_equal : ComparisonOp

pub record VersionConstraint : Type 0 where
  pub op : ComparisonOp
  pub value : Version

abbrev pub component_at : Version → ℕ → ℕ
component_at v i = get_or v.parts i 0

-- The loop of `compare`, with the rounds left and the index of the next one.
unfoldable pub compare_from : Version → Version → ℕ → ℕ → ℤ
compare_from lhs rhs zero i = pos 0
compare_from lhs rhs (suc left) i =
    let a = component_at lhs i in
    let b = component_at rhs i in
    let rest = compare_from lhs rhs left (i + 1) in
    if a == b then rest else if ltb a b then negsuc 0 else pos 1

unfoldable pub compare : Version → Version → ℤ
compare lhs rhs = compare_from lhs rhs (max (length lhs.parts) (length rhs.parts)) 0

abbrev pub satisfies_op : ComparisonOp → ℤ → Bool
satisfies_op equal result = eqb_ℤ result (pos 0)
satisfies_op not_equal result = not (eqb_ℤ result (pos 0))
satisfies_op less result = ltb_ℤ result (pos 0)
satisfies_op less_equal result = leb_ℤ result (pos 0)
satisfies_op greater result = ltb_ℤ (pos 0) result
satisfies_op greater_equal result = leb_ℤ (pos 0) result

unfoldable pub satisfies : Version → VersionConstraint → Bool
satisfies actual constraint = satisfies_op constraint.op (compare actual constraint.value)

-- INT_MAX of the 32-bit `int`.
abbrev pub int_max : ℕ
int_max = 2 ^ 31 - 1

-- std::ranges::all_of(part, isdigit).
unfoldable pub all_digits : Text → Bool
all_digits [] = true
all_digits (c ∷ s) = is_digit c && all_digits s

-- std::from_chars into an `int`, at a text of digits: out of range is an error.
unfoldable pub from_chars : Text → Option ℕ
from_chars part = let value = digits_value 0 part in if leb value int_max then some value else none

abbrev pub parse_part : Text → Option ℕ
parse_part part = if empty part then none else if all_digits part then from_chars part else none

abbrev push_part : Option ℕ → Option (List ℕ) → Option (List ℕ)
push_part none rest = none
push_part (some value) none = none
push_part (some value) (some values) = some (value ∷ values)

-- The loop over the parts; the first part that is no number ends it.
unfoldable pub parse_parts : List Text → Option (List ℕ)
parse_parts [] = some []
parse_parts (part ∷ parts) = push_part (parse_part part) (parse_parts parts)

abbrev version_of : Option (List ℕ) → Option Version
version_of none = none
version_of (some parts) = some (record { parts = parts })

unfoldable pub parse_version : Text → Option Version
unfolding split all_digits from_chars parse_parts
parse_version s = if empty s then none else version_of (parse_parts (split b'.' s))

-- The loop of to_string(Version) behind the first part.
unfoldable pub dotted : List ℕ → Text
dotted [] = []
dotted (n ∷ parts) = b'.' ∷ (to_string n ++ dotted parts)

abbrev pub join_parts : List ℕ → Text
join_parts [] = []
join_parts (n ∷ parts) = to_string n ++ dotted parts

unfoldable pub version_to_string : Version → Text
unfolding dotted
version_to_string version = join_parts version.parts

unfoldable pub op_to_string : ComparisonOp → Text
op_to_string equal = text "=="
op_to_string not_equal = text "!="
op_to_string less = text "<"
op_to_string less_equal = text "<="
op_to_string greater = text ">"
op_to_string greater_equal = text ">="

unfoldable pub parse_comparison_op : Text → Option ComparisonOp
parse_comparison_op s =
    if str_eq s (text "==")
    then some equal
    else if str_eq s (text "!=")
    then some not_equal
    else if str_eq s (text "<")
    then some less
    else if str_eq s (text "<=")
    then some less_equal
    else if str_eq s (text ">")
    then some greater
    else if str_eq s (text ">=")
    then some greater_equal
    else none
