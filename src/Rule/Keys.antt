-- ===== src/Rule/Keys.antt =====
-- Which rules share a lookup key.
use lab_monitor.Base.{
  ℕ, ◌≡◌, ◌↔◌, refl, sym, ◌∙◌, ap, arith, some, [], ◌∷◌, ◌++◌, append_assoc, false, ◌==◌,
  if◌then◌else◌, All, All-imp, Text, text, str_eq, str_eq_iff,
}
use lab_monitor.Base.Decimal.{to_string, IsDigit, is_digit, digits-to_string, to_string_injective}
use lab_monitor.Rule.{
  RegistryHive, RegistryRule, hive_to_string, parse_registry_hive, registry_key, dds_key,
}

-- The hives' texts are parsed to the hives, and no other text is.
pub parse_registry_hive_iff :
    (s : Text) (hive : RegistryHive)
    → (parse_registry_hive s ≡ some hive) ↔ (s ≡ hive_to_string hive)
unfolding parse_registry_hive hive_to_string text str_eq
parse_registry_hive_iff s hive = (forward hive, λ e. rw e (backward hive))
  where
    forward : (hive : RegistryHive) → parse_registry_hive s ≡ some hive → s ≡ hive_to_string hive
    forward RegistryHive.users h = ground (
      arith,
      str_eq_iff s (text "HKLM"),
      str_eq_iff s (text "HKCU"),
      str_eq_iff s (text "HKCR"),
      str_eq_iff s (text "HKU"),
    )
    forward _ h = ground (
      arith,
      str_eq_iff s (text "HKLM"),
      str_eq_iff s (text "HKCU"),
      str_eq_iff s (text "HKCR"),
      str_eq_iff s (text "HKU"),
    )

    backward : (hive : RegistryHive) → parse_registry_hive (hive_to_string hive) ≡ some hive
    backward RegistryHive.users = refl
    backward _ = refl

-- The text before the first slash, and the text behind it.
before : Text → Text
before [] = []
before (c ∷ s) = let rest = before s in if c == b'/' then [] else c ∷ rest

behind : Text → Text
behind [] = []
behind (c ∷ s) = if c == b'/' then s else behind s

digit-ne-slash : (c : ℕ) → IsDigit c → (c == b'/') ≡ false
unfolding is_digit
digit-ne-slash c h = ground arith

before-append : (s t : Text) → All (λ c. (c == b'/') ≡ false) s → before (s ++ b'/' ∷ t) ≡ s
unfolding before
before-append [] t h = refl
before-append (c ∷ s) t h = rw (h.0, before-append s t h.1)

behind-append : (s t : Text) → All (λ c. (c == b'/') ≡ false) s → behind (s ++ b'/' ∷ t) ≡ t
unfolding behind
behind-append [] t h = refl
behind-append (c ∷ s) t h = rw h.0 (behind-append s t h.1)

no_slash : (n : ℕ) → All (λ c. (c == b'/') ≡ false) (to_string n)
no_slash n =
    All-imp IsDigit (λ c. (c == b'/') ≡ false) (to_string n) digit-ne-slash (digits-to_string n)

-- Two DDS rules share a probe result only if they name the same topic on the same domain.
pub dds_key_injective : (d e : ℕ) (s t : Text) → dds_key d s ≡ dds_key e t → (d ≡ e) × (s ≡ t)
unfolding dds_key
dds_key_injective d e s t h = (
  to_string_injective d e (
      sym (before-append (to_string d) s (no_slash d))
      ∙ ap before h
      ∙ before-append (to_string e) t (no_slash e)),
  sym (behind-append (to_string d) s (no_slash d))
      ∙ ap behind h
      ∙ behind-append (to_string e) t (no_slash e),
)

-- A registry key does not tell where the path ends: a rule on the value `n` with two backslashes and
-- `m` behind it, under the path `p`, has the key of the rule on the value `m` under the path of `p`,
-- two backslashes and `n`.
pub registry_key_collision :
    (rule : RegistryRule) (p n m : Text)
    → registry_key (record rule { key_path = p; value_name = n ++ (b'\\' ∷ b'\\' ∷ m) })
      ≡ registry_key (record rule { key_path = p ++ (b'\\' ∷ b'\\' ∷ n); value_name = m })
unfolding registry_key
registry_key_collision rule p n m = simp append_assoc
