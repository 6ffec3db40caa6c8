-- ===== src/Version/Examples.antt =====
-- Runs of the version functions, and the theorems on them at concrete versions.
use lab_monitor.Base.{
  ℕ, suc, ◌<◌, ◌≡◌, ◌≢◌, ◌↔◌, arith, refl, not, true, Option, none, some, List, [], ◌∷◌, ℤ, pos,
  negsuc, leb_ℤ, length, text, split, Text,
}
use lab_monitor.Version.{
  Version, ComparisonOp, component_at, compare, satisfies, parse_version, version_to_string,
  parse_comparison_op, op_to_string,
}
use lab_monitor.Version.RoundTrip.{parse-to_string}

abbrev v1_2 : Version
v1_2 = record { parts = 1 ∷ 2 ∷ [] }

abbrev v1_10 : Version
v1_10 = record { parts = 1 ∷ 10 ∷ [] }

-- Components compare as numbers.
ten_after_two : compare v1_2 v1_10 ≡ negsuc 0
unfolding compare lab_monitor.Version.compare_from
ten_after_two = refl

reads_two_parts : parse_version (text "1.10") ≡ some v1_10
unfolding parse_version text lab_monitor.Base.Decimal.is_digit lab_monitor.Base.Decimal.digits_value
reads_two_parts = refl

rejects_empty_part : parse_version (text "1..2") ≡ none
unfolding parse_version text lab_monitor.Base.Decimal.is_digit lab_monitor.Base.Decimal.digits_value
rejects_empty_part = refl

rejects_large_part : parse_version (text "2147483648") ≡ none
unfolding parse_version text lab_monitor.Base.Decimal.is_digit lab_monitor.Base.Decimal.digits_value
rejects_large_part = refl

parse-to_string_example : parse_version (version_to_string v1_10) ≡ some v1_10
parse-to_string_example = parse-to_string v1_10 (λ e. cc) (omega arith, (omega arith, tt))
