-- ===== src/Base/Strings.antt =====
-- std::string as the list of its bytes, with the comparisons that the program makes.
use Prim.Native.Nat.{ℕ, ◌+◌}
use Prim.Native.Char.{code}
use Prim.Native.String.{String}
use mathlib.Core.Path.{◌≡◌, refl}
use mathlib.Core.Logic.{◌↔◌, inl, inr}
use mathlib.Core.Bool.{Bool, true, false, ◌&&◌, ◌||◌}
use mathlib.Core.List.{List, [], ◌∷◌, ◌++◌, map}
use native.Mathlib.Omega.{arith}
use lab_monitor.Base.Lists.{All}
use lab_monitor.Base.Tests.{ltb, leb, ◌==◌, ==_iff, if◌then◌else◌, Bool-cases}

abbrev pub Text : Type 0
Text = List ℕ

-- A literal of the source, by its bytes. Every literal of the program is ASCII.
unfoldable pub text : String → Text
text String.[] = []
text (String.◌∷◌ c s) = code c ∷ text s

abbrev pub empty : Text → Bool
empty [] = true
empty (_ ∷ _) = false

pub empty-append : (s t : Text) → empty s ≡ false → empty (s ++ t) ≡ false
empty-append [] t h = cc
empty-append (a ∷ s) t h = refl

-- operator== on strings.
unfoldable pub str_eq : Text → Text → Bool
str_eq [] [] = true
str_eq [] (_ ∷ _) = false
str_eq (_ ∷ _) [] = false
str_eq (a ∷ s) (b ∷ t) = a == b && str_eq s t

pub str_eq_refl : (s : Text) → str_eq s s ≡ true
unfolding str_eq
str_eq_refl [] = refl
str_eq_refl (a ∷ s) = ground (arith, str_eq_refl s)

str_eq_sound : (s t : Text) → str_eq s t ≡ true → s ≡ t
unfolding str_eq
str_eq_sound [] [] h = refl
str_eq_sound [] (b ∷ t) h = cc
str_eq_sound (a ∷ s) [] h = cc
str_eq_sound (a ∷ s) (b ∷ t) h = ground (arith, str_eq_sound s t)

pub str_eq_iff : (s t : Text) → (str_eq s t ≡ true) ↔ (s ≡ t)
str_eq_iff s t = (str_eq_sound s t, λ e. rw e (str_eq_refl t))

pub str_eq_comm : (s t : Text) → str_eq s t ≡ str_eq t s
str_eq_comm s t = ground (arith, str_eq_iff s t, str_eq_iff t s)

-- operator< on strings: the lexicographic order of the bytes.
unfoldable pub text_ltb : Text → Text → Bool
text_ltb [] [] = false
text_ltb [] (_ ∷ _) = true
text_ltb (_ ∷ _) [] = false
text_ltb (a ∷ s) (b ∷ t) = ltb a b || (a == b && text_ltb s t)

pub text_ltb_irrefl : (s : Text) → text_ltb s s ≡ false
unfolding text_ltb
text_ltb_irrefl [] = refl
text_ltb_irrefl (a ∷ s) = ground (arith, text_ltb_irrefl s)

pub text_ltb_trans :
    (s t u : Text) → text_ltb s t ≡ true → text_ltb t u ≡ true → text_ltb s u ≡ true
unfolding text_ltb
text_ltb_trans [] [] u h k = cc
text_ltb_trans [] (b ∷ t) [] h k = cc
text_ltb_trans [] (b ∷ t) (c ∷ u) h k = refl
text_ltb_trans (a ∷ s) [] u h k = cc
text_ltb_trans (a ∷ s) (b ∷ t) [] h k = cc
text_ltb_trans (a ∷ s) (b ∷ t) (c ∷ u) h k = ground (arith, text_ltb_trans s t u)

pub text_ltb_connex : (s t : Text) → text_ltb s t ≡ false → str_eq s t ≡ false → text_ltb t s ≡ true
unfolding text_ltb str_eq
text_ltb_connex [] [] h k = cc
text_ltb_connex [] (b ∷ t) h k = cc
text_ltb_connex (a ∷ s) [] h k = refl
text_ltb_connex (a ∷ s) (b ∷ t) h k = ground (arith, text_ltb_connex s t)

pub text_ltb_asymm : (s t : Text) → text_ltb s t ≡ true → text_ltb t s ≡ false
text_ltb_asymm s t h = elim (Bool-cases (text_ltb t s)) [
  | inl k ↦ cc (text_ltb_trans s t s h k, text_ltb_irrefl s)
  | inr k ↦ k
]

-- The parts of a text between the occurrences of a byte: what a loop over find(c, start) and
-- substr visits, the text after the last occurrence included.
abbrev pub prepend : ℕ → List Text → List Text
prepend a [] = (a ∷ []) ∷ []
prepend a (s ∷ rest) = (a ∷ s) ∷ rest

unfoldable pub split : ℕ → Text → List Text
split c [] = [] ∷ []
split c (a ∷ s) = let rest = split c s in if a == c then [] ∷ rest else prepend a rest

-- The first part ends at the first occurrence.
pub split-append :
    (c : ℕ) (s t : Text) → All (λ a. (a == c) ≡ false) s → split c (s ++ c ∷ t) ≡ s ∷ split c t
unfolding split
split-append c [] t h = ground arith
split-append c (a ∷ s) t h = rw (h.0, split-append c s t h.1)

pub split_none : (c : ℕ) (s : Text) → All (λ a. (a == c) ≡ false) s → split c s ≡ s ∷ []
unfolding split
split_none c [] h = refl
split_none c (a ∷ s) h = rw (h.0, split_none c s h.1)

-- std::string_view::starts_with.
unfoldable pub starts_with : Text → Text → Bool
starts_with s [] = true
starts_with [] (_ ∷ _) = false
starts_with (a ∷ s) (b ∷ t) = a == b && starts_with s t

-- s.find(t) != npos.
unfoldable pub contains : Text → Text → Bool
unfolding starts_with
contains [] t = starts_with [] t
contains (a ∷ s) t = starts_with (a ∷ s) t || contains s t

-- Whether a set of strings, kept as a list, holds a string.
unfoldable pub member : Text → List Text → Bool
member s [] = false
member s (t ∷ ts) = str_eq s t || member s ts

pub member-append :
    (s : Text) (ts us : List Text) → member s (ts ++ us) ≡ (member s ts || member s us)
unfolding member
member-append s [] us = refl
member-append s (t ∷ ts) us = ground (arith, member-append s ts us)

-- No string stands twice in the list.
abbrev pub Distinct : List Text → Type 0
Distinct [] = Unit
Distinct (t ∷ ts) = (member t ts ≡ false) × Distinct ts

-- std::isalnum and std::tolower in the "C" locale.
unfoldable pub is_alnum : ℕ → Bool
is_alnum c = (leb b'0' c && leb c b'9') || (leb b'A' c && leb c b'Z') || (leb b'a' c && leb c b'z')

unfoldable pub to_lower : ℕ → ℕ
to_lower c = if leb b'A' c && leb c b'Z' then c + 32 else c

-- std::ranges::equal after std::tolower.
unfoldable pub equals_ignore_case : Text → Text → Bool
unfolding to_lower
equals_ignore_case [] [] = true
equals_ignore_case [] (_ ∷ _) = false
equals_ignore_case (_ ∷ _) [] = false
equals_ignore_case (a ∷ s) (b ∷ t) = to_lower a == to_lower b && equals_ignore_case s t

equals_ignore_case_sound :
    (s t : Text) → equals_ignore_case s t ≡ true → map to_lower s ≡ map to_lower t
unfolding equals_ignore_case
equals_ignore_case_sound [] [] h = refl
equals_ignore_case_sound [] (b ∷ t) h = cc
equals_ignore_case_sound (a ∷ s) [] h = cc
equals_ignore_case_sound (a ∷ s) (b ∷ t) h =
    ground (arith, ==_iff (to_lower a) (to_lower b), equals_ignore_case_sound s t)

equals_ignore_case_complete :
    (s t : Text) → map to_lower s ≡ map to_lower t → equals_ignore_case s t ≡ true
unfolding equals_ignore_case
equals_ignore_case_complete [] [] h = refl
equals_ignore_case_complete [] (b ∷ t) h = cc
equals_ignore_case_complete (a ∷ s) [] h = cc
equals_ignore_case_complete (a ∷ s) (b ∷ t) h =
    ground (arith, ==_iff (to_lower a) (to_lower b), equals_ignore_case_complete s t)

-- Two strings are equal up to case exactly when they are equal in lower case.
pub equals_ignore_case_iff :
    (s t : Text) → (equals_ignore_case s t ≡ true) ↔ (map to_lower s ≡ map to_lower t)
equals_ignore_case_iff s t = (equals_ignore_case_sound s t, equals_ignore_case_complete s t)
