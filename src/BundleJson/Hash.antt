-- ===== src/BundleJson/Hash.antt =====
-- content_hash of libs/core/src/json.cpp.
use lab_monitor.Base.{
  ℕ, zero, suc, ◌+◌, ◌/◌, ◌%◌, ◌<◌, ◌≤◌, ◌⊎◌, ◌≡◌, refl, [], ◌∷◌, length, All, Text, Option, none,
  some, subst, arith,
}
use lab_monitor.Base.Json.{Expected, JsonLibrary}
use lab_monitor.Bundle.{TemplateBundle}
use lab_monitor.BundleJson.{
  content_hash, hashed, content, bundle_to_json, fnv, hex_digits, hex_digit,
}

-- A digit of a hexadecimal number in small letters.
abbrev pub IsHexDigit : ℕ → Type 0
IsHexDigit c = ((b'0' ≤ c) × (c ≤ b'9')) ⊎ ((b'a' ≤ c) × (c ≤ b'f'))

hex_digit-IsHexDigit : (n : ℕ) → n < 16 → IsHexDigit (hex_digit n)
hex_digit-IsHexDigit n h = ground arith

length-hex_digits : (i hash : ℕ) (out : Text) → length (hex_digits i hash out) ≡ i + length out
unfolding hex_digits
length-hex_digits zero hash out = omega arith
length-hex_digits (suc i) hash out =
    let step = length-hex_digits i (hash / 16) (hex_digit (hash % 16) ∷ out) in omega (arith, step)

hex_digits-All :
    (i hash : ℕ) (out : Text) → All IsHexDigit out → All IsHexDigit (hex_digits i hash out)
unfolding hex_digits
hex_digits-All zero hash out h = h
hex_digits-All (suc i) hash out h =
    hex_digits-All i (hash / 16) (hex_digit (hash % 16) ∷ out)
      (hex_digit-IsHexDigit (hash % 16) (omega arith), h)

module _ (J : JsonLibrary) where
  -- Two bundles that differ in nothing but their revision and their hash have the same hash, or the
  -- dump throws at both.
  pub content_hash_same :
      (bundle : TemplateBundle) (revision : ℕ) (hash : Text)
      → content_hash J (record bundle { revision = revision; hash = hash }) ≡ content_hash J bundle
  unfolding content_hash
  content_hash_same bundle revision hash = refl

  hashed_digits :
      (j : J.Json) (o : Option Text) (hash : Text)
      → hashed J j o ≡ Expected.value hash
      → (length hash ≡ 16) × All IsHexDigit hash
  hashed_digits j (some error) hash h = absurd (cc)
  hashed_digits j none hash h =
      let n = fnv 14695981039346656037 (J.dump j) in
      subst (λ s. (length s ≡ 16) × All IsHexDigit s) (value_eq h)
        (length-hex_digits 16 n [], hex_digits-All 16 n [] tt)
    where
      value_eq :
          {s t : Text} → ◌≡◌ {A = Expected Text Text} (Expected.value s) (Expected.value t) → s ≡ t
      value_eq h = cc

  -- The hash of a bundle, where the dump does not throw, is 16 characters long, all of them
  -- hexadecimal digits.
  pub content_hash_digits :
      (bundle : TemplateBundle) (hash : Text)
      → content_hash J bundle ≡ Expected.value hash
      → (length hash ≡ 16) × All IsHexDigit hash
  unfolding content_hash
  content_hash_digits bundle hash h =
      let j = bundle_to_json J (content bundle) in hashed_digits j (J.dump_error j) hash h
