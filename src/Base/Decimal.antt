-- ===== src/Base/Decimal.antt =====
-- std::to_string on non-negative numbers, and the digits of a number read back.
use Prim.Native.Nat.{ℕ, zero, suc, ◌+◌, ◌-◌, ◌*◌, ◌/◌, ◌%◌, ◌<◌}
use mathlib.Core.Path.{◌≡◌, refl, ap, ◌∙◌, sym}
use mathlib.Core.Bool.{Bool, true, false, ◌&&◌}
use mathlib.Core.List.{[], ◌∷◌, ◌++◌}
use native.Mathlib.Omega.{arith}
use lab_monitor.Base.Tests.{ltb, leb, if◌then◌else◌}
use lab_monitor.Base.Lists.{All, All-append}
use lab_monitor.Base.Strings.{Text, empty}

-- std::isdigit in the "C" locale.
unfoldable pub is_digit : ℕ → Bool
is_digit c = leb b'0' c && leb c b'9'

-- One digit a round, the last one first. A number below 10 to the fuel needs no more rounds.
unfoldable pub decimal : ℕ → ℕ → Text
decimal zero n = []
decimal (suc fuel) n =
    let front = decimal fuel (n / 10) in
    if ltb n 10 then (b'0' + n) ∷ [] else front ++ (b'0' + n % 10) ∷ []

-- A number has at most as many digits as its successor counts.
unfoldable pub to_string : ℕ → Text
unfolding decimal
to_string n = decimal (suc n) n

-- The value of a run of digits, from the left.
unfoldable pub digits_value : ℕ → Text → ℕ
digits_value n [] = n
digits_value n (c ∷ s) = digits_value (n * 10 + (c - b'0')) s

digits_value-append :
    (n : ℕ) (s t : Text) → digits_value n (s ++ t) ≡ digits_value (digits_value n s) t
unfolding digits_value
digits_value-append n [] t = refl
digits_value-append n (c ∷ s) t = digits_value-append (n * 10 + (c - b'0')) s t

value-decimal : (fuel n : ℕ) → n < fuel → digits_value 0 (decimal fuel n) ≡ n
unfolding decimal digits_value
value-decimal zero n h = elim h [ ]
value-decimal (suc fuel) n h = ground (
  arith,
  value-decimal fuel (n / 10),
  digits_value-append 0 (decimal fuel (n / 10)) ((b'0' + n % 10) ∷ []),
)

-- Printing and reading back the digits gives the number.
pub value-to_string : (n : ℕ) → digits_value 0 (to_string n) ≡ n
unfolding to_string
value-to_string n = value-decimal (suc n) n (omega arith)

pub to_string_injective : (m n : ℕ) → to_string m ≡ to_string n → m ≡ n
to_string_injective m n e = sym (value-to_string m) ∙ ap (digits_value 0) e ∙ value-to_string n

-- A byte is a digit.
abbrev pub IsDigit : ℕ → Type 0
IsDigit c = is_digit c ≡ true

digits-decimal : (fuel n : ℕ) → All IsDigit (decimal fuel n)
unfolding decimal is_digit
digits-decimal zero n = tt
digits-decimal (suc fuel) n = ground (
  arith,
  All-append IsDigit (decimal fuel (n / 10)) ((b'0' + n % 10) ∷ []) (digits-decimal fuel (n / 10)),
)

pub digits-to_string : (n : ℕ) → All IsDigit (to_string n)
unfolding to_string
digits-to_string n = digits-decimal (suc n) n

snoc-ne_nil : (s : Text) (c : ℕ) → empty (s ++ c ∷ []) ≡ false
snoc-ne_nil [] c = refl
snoc-ne_nil (a ∷ s) c = refl

-- A number prints at least one digit.
pub to_string-ne_nil : (n : ℕ) → empty (to_string n) ≡ false
unfolding to_string decimal
to_string-ne_nil n = ground (arith, snoc-ne_nil (decimal n (n / 10)) (b'0' + n % 10))
