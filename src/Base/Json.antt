-- ===== src/Base/Json.antt =====
-- What the program takes from the JSON library and from the floating-point type. Neither is part of
-- the repository: a value is seen through `view`, which tells its kind and its content, the numbers
-- of type double are compared by the library's own tests, and parsing and dumping are parameters.
use Prim.Native.Nat.{ℕ, ◌-◌, ◌%◌, ◌^◌, ◌<◌, suc}
use mathlib.Core.Path.{◌≡◌}
use mathlib.Core.Bool.{Bool}
use mathlib.Core.Option.{Option}
use mathlib.Core.List.{List, ◌∷◌}
use lab_monitor.Base.Tests.{ltb, if◌then◌else◌}
use lab_monitor.Base.Int.{ℤ, pos, negsuc}
use lab_monitor.Base.Strings.{Text}
use lab_monitor.Base.OrderedMap
use lab_monitor.Base.Decimal.{to_string}

-- std::expected: a value, or the reason why there is none.
pub data Expected {ℓ} (A : Type ℓ) (E : Type ℓ) : Type ℓ where
  value : A → Expected A E
  unexpected : E → Expected A E

-- An int of 32 bits.
abbrev pub IsInt32 : ℤ → Type 0
IsInt32 (pos n) = n < 2 ^ 31
IsInt32 (negsuc n) = n < 2 ^ 31

abbrev pub IsInt64 : ℤ → Type 0
IsInt64 (pos n) = n < 2 ^ 63
IsInt64 (negsuc n) = n < 2 ^ 63

-- The kinds of a value. The library keeps numbers without a sign and with one apart, and counts both
-- as integers.
pub data View (Json Double : Type 0) : Type 0 where
  null : View Json Double
  boolean : Bool → View Json Double
  integer : ℤ → View Json Double
  unsigned : ℕ → View Json Double
  float : Double → View Json Double
  string : Text → View Json Double
  array : List Json → View Json Double
  object : List (Text × Json) → View Json Double
  other : View Json Double

pub record JsonLibrary : Type 1 where
  pub Json : Type 0
  pub Double : Type 0
  pub view : Json → View Json Double
  -- A parsed document, or the text of the exception.
  pub parse_json : Text → Expected Json Text
  -- What dump returns, where it does not throw, and the text of the exception that it throws at a text
  -- that is not valid UTF-8.
  pub dump : Json → Text
  pub dump_error : Json → Option Text
  -- dump with a number of spaces to indent by.
  pub dump_indented : ℕ → Json → Text
  -- The value can be dumped and read again: its texts are valid UTF-8, its numbers are finite.
  pub IsPrintable : Json → Type 0
  pub parse_json-dump_indented :
      (indent : ℕ) (j : Json)
      → IsPrintable j
      → parse_json (dump_indented indent j) ≡ Expected.value j
  -- The value made of a std::size_t, which is a number without a sign.
  pub of_size : ℕ → Json
  pub view-of_size : (n : ℕ) → view (of_size n) ≡ View.unsigned n
  -- The values made of the other types. The members of an object are kept by key.
  pub of_string : Text → Json
  pub view-of_string : (s : Text) → view (of_string s) ≡ View.string s
  pub of_boolean : Bool → Json
  pub view-of_boolean : (b : Bool) → view (of_boolean b) ≡ View.boolean b
  pub of_array : List Json → Json
  pub view-of_array : (elements : List Json) → view (of_array elements) ≡ View.array elements
  pub of_object : List (Text × Json) → Json
  pub view-of_object :
      (members : List (Text × Json))
      → view (of_object members) ≡ View.object (OrderedMap.of_list members)
  pub of_integer : ℤ → Json
  -- get<int>, get<std::int64_t>, get<std::uint32_t> and get<std::uint64_t>, or the text of the exception.
  pub get_int : Json → Expected ℤ Text
  pub get_int64 : Json → Expected ℤ Text
  pub get_uint32 : Json → Expected ℕ Text
  pub get_uint64 : Json → Expected ℕ Text
  pub get_int-of_integer : (z : ℤ) → IsInt32 z → get_int (of_integer z) ≡ Expected.value z
  pub get_int64-of_integer : (z : ℤ) → IsInt64 z → get_int64 (of_integer z) ≡ Expected.value z
  pub get_uint32-of_size : (n : ℕ) → n < 2 ^ 32 → get_uint32 (of_size n) ≡ Expected.value n
  pub get_uint64-of_size : (n : ℕ) → n < 2 ^ 64 → get_uint64 (of_size n) ≡ Expected.value n
  -- The texts of the exceptions: a value of another kind than asked for, and a key that is not there.
  pub type_error : Text → Json → Text
  pub missing_key : Text → Text
  -- std::stod: none where it throws.
  pub stod : Text → Option Double
  pub double_of_integer : ℤ → Double
  pub double_of_unsigned : ℕ → Double
  pub double_le : Double → Double → Bool
  pub double_eq : Double → Double → Bool
  -- std::to_string(double).
  pub double_to_string : Double → Text

-- A number without a sign read as std::int64_t: the upper half stands for negative numbers.
unfoldable pub int64_of_unsigned : ℕ → ℤ
int64_of_unsigned n =
    let low = n % 2 ^ 64 in if ltb low (2 ^ 63) then pos low else negsuc (2 ^ 64 - 1 - low)

-- std::to_string on a number with a sign.
unfoldable pub integer_to_string : ℤ → Text
integer_to_string (pos n) = to_string n
integer_to_string (negsuc n) = b'-' ∷ to_string (suc n)
