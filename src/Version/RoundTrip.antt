-- ===== src/Version/RoundTrip.antt =====
-- Versions and operators printed and parsed again.
use lab_monitor.Base.{
  ℕ, suc, ◌≤◌, ◌<◌, ◌≡◌, ◌≢◌, ◌↔◌, refl, arith, true, false, Option, none, some, List, [], ◌∷◌,
  ◌++◌, All, All-imp, length, ◌==◌, Text, text, str_eq, str_eq_iff, split, split-append, split_none,
  empty-append, append-nil, subst, ap,
}
use lab_monitor.Base.Decimal.{
  to_string, is_digit, IsDigit, digits-to_string, value-to_string, to_string-ne_nil,
}
use lab_monitor.Base.Strings.{prepend}
use lab_monitor.Version.{
  push_part, version_of, Version, ComparisonOp, equal, int_max, all_digits, from_chars, parse_part,
  parse_parts, parse_version, dotted, version_to_string, op_to_string, parse_comparison_op,
}

digit-ne-dot : (c : ℕ) → IsDigit c → (c == b'.') ≡ false
unfolding is_digit
digit-ne-dot c h = ground arith

all_digits_lem : (s : Text) → All IsDigit s → all_digits s ≡ true
unfolding all_digits
all_digits_lem [] h = refl
all_digits_lem (c ∷ s) h = rw (h.0, all_digits_lem s h.1)

parse_part-to_string : (n : ℕ) → n ≤ int_max → parse_part (to_string n) ≡ some n
unfolding from_chars
parse_part-to_string n h =
    rw (to_string-ne_nil n, all_digits_lem (to_string n) (digits-to_string n), value-to_string n)
      (ground arith)

no_dot : (n : ℕ) → All (λ c. (c == b'.') ≡ false) (to_string n)
no_dot n =
    All-imp IsDigit (λ c. (c == b'.') ≡ false) (to_string n) digit-ne-dot (digits-to_string n)

-- Every part is an `int`.
abbrev pub InRange : List ℕ → Type 0
InRange = All (λ n. n ≤ int_max)

parse_dotted :
    (n : ℕ) (parts : List ℕ)
    → n ≤ int_max
    → InRange parts
    → parse_parts (split b'.' (to_string n ++ dotted parts)) ≡ some (n ∷ parts)
unfolding parse_parts dotted
parse_dotted n [] h k =
    rw (append-nil, split_none b'.' (to_string n) (no_dot n), parse_part-to_string n h)
parse_dotted n (m ∷ parts) h k = rw (
  split-append b'.' (to_string n) (to_string m ++ dotted parts) (no_dot n),
  parse_part-to_string n h,
  parse_dotted m parts k.0 k.1,
)

-- A printed version parses back to itself, if it has a part and its parts fit an `int`.
pub parse-to_string :
    (v : Version) → v.parts ≢ [] → InRange v.parts → parse_version (version_to_string v) ≡ some v
unfolding parse_version version_to_string
parse-to_string v h k = go v.parts h k
  where
    go :
        (parts : List ℕ)
        → parts ≢ []
        → InRange parts
        → parse_version (version_to_string (record { parts = parts }))
          ≡ some (record { parts = parts })
    go [] h k = absurd (h refl)
    go (n ∷ parts) h k = ground (
      arith,
      parse_dotted n parts k.0 k.1,
      empty-append (to_string n) (dotted parts) (to_string-ne_nil n),
    )

parse_part-le : (s : Text) (n : ℕ) → parse_part s ≡ some n → n ≤ int_max
unfolding from_chars
parse_part-le s n h = ground arith

parse_parts-InRange :
    (parts : List Text) (values : List ℕ)
    → parse_parts parts ≡ some values
    → InRange values × (length values ≡ length parts)
unfolding parse_parts
parse_parts-InRange [] [] h = (tt, refl)
parse_parts-InRange [] (n ∷ values) h = cc
parse_parts-InRange (part ∷ parts) values h =
    step (parse_part part) (parse_parts parts) refl (parse_parts-InRange parts) h
  where
    step :
        (p : Option ℕ) (r : Option (List ℕ))
        → parse_part part ≡ p
        → ((vs : List ℕ) → r ≡ some vs → InRange vs × (length vs ≡ length parts))
        → push_part p r ≡ some values
        → InRange values × (length values ≡ length (part ∷ parts))
    step none r e f k = cc
    step (some n) none e f k = cc
    step (some n) (some ns) e f k =
        let (low, long) = f ns refl in
        let same : n ∷ ns ≡ values = cc in
        subst (λ vs. InRange vs × (length vs ≡ length (part ∷ parts))) same
          ((parse_part-le part n e, low), ap suc long)

prepend-pos : (a : ℕ) (l : List Text) → 0 < length (prepend a l)
prepend-pos a [] = omega arith
prepend-pos a (s ∷ l) = omega arith

split-pos : (c : ℕ) (s : Text) → 0 < length (split c s)
unfolding split
split-pos c [] = omega arith
split-pos c (a ∷ s) = ground (arith, prepend-pos a (split c s))

-- What `parse_version` accepts is a version with at least one component, as many as the text has
-- parts between dots, and each of them fits an `int`.
pub parse_version-InRange :
    (s : Text) (v : Version)
    → parse_version s ≡ some v
    → InRange v.parts × (length v.parts ≡ length (split b'.' s)) × (0 < length v.parts)
unfolding parse_version
parse_version-InRange s v h = go (parse_parts (split b'.' s)) refl (ground arith)
  where
    go :
        (r : Option (List ℕ))
        → parse_parts (split b'.' s) ≡ r
        → version_of r ≡ some v
        → InRange v.parts × (length v.parts ≡ length (split b'.' s)) × (0 < length v.parts)
    go none e k = cc
    go (some parts) e k =
        let (low, long) = parse_parts-InRange (split b'.' s) parts e in
        let same : record { parts = parts } ≡ v = cc in
        subst
          (λ (w : Version).
            InRange w.parts × (length w.parts ≡ length (split b'.' s)) × (0 < length w.parts))
          same (low, long, omega (arith, long, split-pos b'.' s))

-- The operators' texts are parsed to the operators, and no other text is.
pub parse_comparison_op_iff :
    (s : Text) (op : ComparisonOp) → (parse_comparison_op s ≡ some op) ↔ (s ≡ op_to_string op)
unfolding parse_comparison_op op_to_string text str_eq
parse_comparison_op_iff s op = (forward op, λ e. rw e (backward op))
  where
    forward : (op : ComparisonOp) → parse_comparison_op s ≡ some op → s ≡ op_to_string op
    forward equal h = ground (
      arith,
      str_eq_iff s (text "=="),
      str_eq_iff s (text "!="),
      str_eq_iff s (text "<"),
      str_eq_iff s (text "<="),
      str_eq_iff s (text ">"),
      str_eq_iff s (text ">="),
    )
    forward _ h = ground (
      arith,
      str_eq_iff s (text "=="),
      str_eq_iff s (text "!="),
      str_eq_iff s (text "<"),
      str_eq_iff s (text "<="),
      str_eq_iff s (text ">"),
      str_eq_iff s (text ">="),
    )

    backward : (op : ComparisonOp) → parse_comparison_op (op_to_string op) ≡ some op
    backward equal = refl
    backward _ = refl
