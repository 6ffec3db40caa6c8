-- ===== src/Bundle/Slug.antt =====
-- The shape of a slug.
use mathlib.Core.List.{reverse, reverse-append, reverse-reverse}
use lab_monitor.Base.{
  ℕ, ◌≡◌, refl, sym, subst, ◌∙◌, ap, arith, Bool, true, false, not, ◌&&◌, ◌||◌, [], ◌∷◌, ◌++◌, leb,
  ◌==◌, ==_iff, Text, empty, is_alnum, to_lower, Bool-cases, inl, inr,
}
use lab_monitor.Bundle.{push_slug, slugify_from, trim_dashes, slugify, ends_with_dash}

-- A digit or a lower-case letter.
pub is_plain : ℕ → Bool
is_plain c = (leb b'0' c && leb c b'9') || (leb b'a' c && leb c b'z')

-- A slug with its last character first, while it is built: plain characters, and dashes that each
-- stand right behind a plain one.
abbrev pub IsSlug : Text → Type 0
IsSlug [] = Unit
IsSlug (c ∷ s) =
    ((is_plain c || (c == b'-' && (not (empty s) && not (ends_with_dash s)))) ≡ true) × IsSlug s

lower-plain : (c : ℕ) → is_alnum c ≡ true → is_plain (to_lower c) ≡ true
unfolding is_plain is_alnum to_lower
lower-plain c h = ground arith

plain-alnum : (c : ℕ) → is_plain c ≡ true → is_alnum c ≡ true
unfolding is_plain is_alnum
plain-alnum c h = ground arith

lower_plain_id : (c : ℕ) → is_plain c ≡ true → to_lower c ≡ c
unfolding is_plain to_lower
lower_plain_id c h = ground arith

dash_alnum : (c : ℕ) → (c == b'-') ≡ true → is_alnum c ≡ false
unfolding is_alnum
dash_alnum c h = ground arith

or-true : (b : Bool) → (b || true) ≡ true
or-true true = refl
or-true false = refl

push_dash :
    (ch c : ℕ) (s : Text)
    → is_alnum ch ≡ false
    → (c == b'-') ≡ false
    → push_slug ch (c ∷ s) ≡ b'-' ∷ c ∷ s
unfolding push_slug
push_dash ch c s a d = rw (a, d)

dash_fits :
    (c : ℕ) (s : Text)
    → (c == b'-') ≡ false
    → (is_plain b'-' || (b'-' == b'-' && (not (empty (c ∷ s)) && not (ends_with_dash (c ∷ s)))))
      ≡ true
dash_fits c s d = rw d (or-true (is_plain b'-'))

push-IsSlug : (ch : ℕ) (s : Text) → IsSlug s → IsSlug (push_slug ch s)
unfolding push_slug
push-IsSlug ch [] h = ground (arith, lower-plain ch)
push-IsSlug ch (c ∷ s) h = elim (Bool-cases (is_alnum ch)) [
  | inl a ↦ rw (a, lower-plain ch a) (refl, h)
  | inr a ↦ elim (Bool-cases (c == b'-')) [
    | inl d ↦ rw (a, d) h
    | inr d ↦ subst IsSlug (sym (push_dash ch c s a d)) (dash_fits c s d, h)
  ]
]

slugify_from-IsSlug : (s slug : Text) → IsSlug slug → IsSlug (slugify_from slug s)
unfolding slugify_from
slugify_from-IsSlug [] slug h = h
slugify_from-IsSlug (ch ∷ s) slug h =
    slugify_from-IsSlug s (push_slug ch slug) (push-IsSlug ch slug h)

trim-IsSlug :
    (s : Text) → IsSlug s → IsSlug (trim_dashes s) × (ends_with_dash (trim_dashes s) ≡ false)
unfolding trim_dashes
trim-IsSlug [] h = (tt, refl)
trim-IsSlug (c ∷ s) h = elim (Bool-cases (c == b'-')) [
  | inl d ↦ rw d (trim-IsSlug s h.1)
  | inr d ↦ rw (d) (h, d)
]

-- A slug holds digits, lower-case letters and single dashes between them, and neither begins nor
-- ends with a dash.
pub slugify-IsSlug :
    (s : Text) → IsSlug (reverse (slugify s)) × (ends_with_dash (reverse (slugify s)) ≡ false)
unfolding slugify
slugify-IsSlug s =
    rw (reverse-reverse (trim_dashes (slugify_from [] s)))
      (trim-IsSlug (slugify_from [] s) (slugify_from-IsSlug s [] tt))

slugify_from-append :
    (slug s t : Text) → slugify_from slug (s ++ t) ≡ slugify_from (slugify_from slug s) t
unfolding slugify_from
slugify_from-append slug [] t = refl
slugify_from-append slug (c ∷ s) t = slugify_from-append (push_slug c slug) s t

and-true : (a b : Bool) → (a && b) ≡ true → (a ≡ true) × (b ≡ true)
and-true a b h = ground arith

push-slug : (c : ℕ) (s : Text) → IsSlug (c ∷ s) → push_slug c s ≡ c ∷ s
unfolding push_slug
push-slug c s h = elim (Bool-cases (is_plain c)) [
  | inl p ↦ rw (plain-alnum c p, lower_plain_id c p)
  | inr p ↦
      let k : (c == b'-' && (not (empty s) && not (ends_with_dash s))) ≡ true = rw p at h.0 in
      let (dash, behind) = and-true (c == b'-') (not (empty s) && not (ends_with_dash s)) k in
      rw (dash_alnum c dash, behind) (ap (λ d. d ∷ s) (sym ((==_iff c b'-').0 dash)))
]

slugify_from-reverse : (s : Text) → IsSlug s → slugify_from [] (reverse s) ≡ s
unfolding slugify_from
slugify_from-reverse [] h = refl
slugify_from-reverse (c ∷ s) h = rw (reverse-append (c ∷ []) s) (
    slugify_from-append [] (reverse s) (c ∷ [])
    ∙ ap (push_slug c) (slugify_from-reverse s h.1)
    ∙ push-slug c s h)

trim-id : (s : Text) → ends_with_dash s ≡ false → trim_dashes s ≡ s
unfolding trim_dashes
trim-id [] h = refl
trim-id (c ∷ s) h = rw h

-- Slugs are fixed by slugify.
pub slugify_idem : (s : Text) → slugify (slugify s) ≡ slugify s
unfolding slugify
slugify_idem s =
    let t = trim_dashes (slugify_from [] s) in
    let (good, plain_end) = trim-IsSlug (slugify_from [] s) (slugify_from-IsSlug s [] tt) in
    ap (λ u. reverse (trim_dashes u)) (slugify_from-reverse t good)
    ∙ ap reverse (trim-id t plain_end)
