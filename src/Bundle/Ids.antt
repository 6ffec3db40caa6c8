-- ===== src/Bundle/Ids.antt =====
-- The ids that unique_id of libs/core/src/template_bundle.cpp generates.
use lab_monitor.Base.{
  ℕ, zero, suc, ◌+◌, ◌≤◌, ◌<◌, ◌≡◌, ◌⊎◌, inl, inr, refl, sym, arith, true, false, List, [], ◌∷◌,
  ◌++◌, if◌then◌else◌, length, Text, str_eq, str_eq_iff, empty, empty-append, member, member-append,
  Bool-cases, subst, text,
}
use native.Mathlib.Decide.{dec_lt}
use lab_monitor.Base.Decimal.{to_string, to_string_injective}
use lab_monitor.Rule.{Rule, kind_of}
use lab_monitor.Bundle.{
  TemplateBundle, candidate, next_free, unique_id, base_id, all_ids, make_rule_id, prefix_of,
  slugify, target_of, ids, ids_of_templates,
}

pub remove : Text → List Text → List Text
remove s [] = []
remove s (t ∷ ts) = let rest = remove s ts in if str_eq s t then rest else t ∷ rest

pub member-remove :
    (j s : Text) (ts : List Text)
    → member j (remove s ts) ≡ (if str_eq s j then false else member j ts)
unfolding member remove
member-remove j s [] = ground arith
member-remove j s (t ∷ ts) =
    ground (arith, str_eq_iff s t, str_eq_iff s j, str_eq_iff j t, member-remove j s ts)

length-remove_le : (s : Text) (ts : List Text) → length (remove s ts) ≤ length ts
unfolding remove
length-remove_le s [] = omega arith
length-remove_le s (t ∷ ts) = ground (arith, length-remove_le s ts)

pub length-remove :
    (s : Text) (ts : List Text) → member s ts ≡ true → length (remove s ts) < length ts
unfolding member remove
length-remove s [] h = cc
length-remove s (t ∷ ts) h = ground (arith, length-remove s ts, length-remove_le s ts)

tail_eq : (a b : ℕ) (s t : Text) → ◌≡◌ {A = Text} (a ∷ s) (b ∷ t) → s ≡ t
tail_eq a b s t h = cc

append_cancel : (s t u : Text) → s ++ t ≡ s ++ u → t ≡ u
append_cancel [] t u h = h
append_cancel (a ∷ s) t u h = append_cancel s t u (tail_eq a a (s ++ t) (s ++ u) h)

-- Different suffixes give different candidates.
candidate_injective : (base : Text) (m n : ℕ) → candidate base m ≡ candidate base n → m ≡ n
candidate_injective base m n h = to_string_injective m n (
    tail_eq b'-' b'-' (to_string m) (to_string n)
      (append_cancel base (b'-' ∷ to_string m) (b'-' ∷ to_string n) h))

-- The candidates from a suffix on that are taken lie in the list `left`.
abbrev TakenIn : List Text → Text → ℕ → List Text → Type 0
TakenIn taken base k left =
    (j : ℕ) → k ≤ j → member (candidate base j) taken ≡ true → member (candidate base j) left ≡ true

TakenIn-step :
    (taken left : List Text) (base : Text) (k : ℕ)
    → TakenIn taken base k left
    → TakenIn taken base (k + 1) (remove (candidate base k) left)
TakenIn-step taken left base k h j p q =
    elim (Bool-cases (str_eq (candidate base k) (candidate base j))) [
      | inl e ↦ absurd (
          omega (
            arith,
            candidate_injective base k j ((str_eq_iff (candidate base k) (candidate base j)).0 e),
          ))
      | inr e ↦
          rw (member-remove (candidate base j) (candidate base k) left, e) (h j (omega arith) q)
    ]

absurd_member : {A : Type 0} (s : Text) → member s [] ≡ true → A
unfolding member
absurd_member s h = cc

next_free-free :
    (rounds : ℕ) (taken left : List Text) (base : Text) (k : ℕ)
    → TakenIn taken base k left
    → length left ≤ rounds
    → member (next_free rounds taken base k) taken ≡ false
unfolding next_free
next_free-free zero taken [] base k h p = elim (Bool-cases (member (candidate base k) taken)) [
  | inl t ↦ absurd_member (candidate base k) (h k (omega arith) t)
  | inr f ↦ f
]
next_free-free zero taken (t ∷ left) base k h p = absurd (omega arith)
next_free-free (suc rounds) taken left base k h p =
    elim (Bool-cases (member (candidate base k) taken)) [
      | inl t ↦ rw t (
          next_free-free rounds taken (remove (candidate base k) left) base (k + 1)
            (TakenIn-step taken left base k h)
            (omega (arith, length-remove (candidate base k) left (h k (omega arith) t))))
      | inr f ↦ rw (f) f
    ]

-- An id generated against a set of taken ids is not one of them: a free suffix is always reached.
pub unique_id-free : (taken : List Text) (rule : Rule) → member (unique_id taken rule) taken ≡ false
unfolding unique_id
unique_id-free taken rule = elim (Bool-cases (member (base_id rule) taken)) [
  | inl t ↦
      rw t (next_free-free (length taken) taken taken (base_id rule) 2 (λ j _ q. q) (omega arith))
  | inr f ↦ rw (f) f
]

-- From a suffix on, `k` is the first one whose candidate is free.
abbrev pub FirstFree : List Text → Text → ℕ → ℕ → Type 0
FirstFree taken base from k =
    (from ≤ k)
    × ((j : ℕ) → from ≤ j → j < k → member (candidate base j) taken ≡ true)
    × (member (candidate base k) taken ≡ false)

FirstFree-step :
    (taken : List Text) (base : Text) (from k : ℕ)
    → member (candidate base from) taken ≡ true
    → FirstFree taken base (from + 1) k
    → FirstFree taken base from k
FirstFree-step taken base from k t (p, below, free) = (
  omega arith,
  (λ j q r. elim (dec_lt from j) [
    | yes l ↦ below j (omega arith) r
    | no l ↦
        let same : j ≡ from = omega arith in
        subst (λ n. member (candidate base n) taken ≡ true) (sym same) t
  ]),
  free,
)

next_free-first :
    (rounds : ℕ) (taken : List Text) (base : Text) (from : ℕ)
    → member (next_free rounds taken base from) taken ≡ false
    → (k : ℕ) × (next_free rounds taken base from ≡ candidate base k) × FirstFree taken base from k
unfolding next_free
next_free-first zero taken base from free =
    (from, refl, (omega arith, (λ j p q. absurd (omega arith)), free))
next_free-first (suc rounds) taken base from free =
    elim (Bool-cases (member (candidate base from) taken)) [
      | inl t ↦
          let (k, e, first) = next_free-first rounds taken base (from + 1) (ground arith) in
          (k, rw t e, FirstFree-step taken base from k t first)
      | inr f ↦ (from, rw (f), (omega arith, (λ j p q. absurd (omega arith)), f))
    ]

-- A generated id is the plain one if that is free, and otherwise carries the first free suffix from
-- 2 on.
pub unique_id-first :
    (taken : List Text) (rule : Rule)
    → ((member (base_id rule) taken ≡ false) × (unique_id taken rule ≡ base_id rule))
      ⊎ ((member (base_id rule) taken ≡ true)
          × ((k : ℕ) × (unique_id taken rule ≡ candidate (base_id rule) k)
              × FirstFree taken (base_id rule) 2 k))
unfolding unique_id
unique_id-first taken rule = elim (Bool-cases (member (base_id rule) taken)) [
  | inl t ↦ inr (t, next_first t)
  | inr f ↦ inl (f, rw f)
]
  where
    next_first :
        member (base_id rule) taken ≡ true
        → (k : ℕ) × (unique_id taken rule ≡ candidate (base_id rule) k)
          × FirstFree taken (base_id rule) 2 k
    next_first t =
        let (k, e, first) =
          next_free-first (length taken) taken (base_id rule) 2 (
            next_free-free (length taken) taken taken (base_id rule) 2 (λ j _ q. q)
              (omega arith)) in
        (k, rw t e, first)

prefix_of-ne_nil : (rule : Rule) → empty (prefix_of (kind_of rule)) ≡ false
unfolding prefix_of text
prefix_of-ne_nil rule = ground arith

base_id-ne_nil : (rule : Rule) → empty (base_id rule) ≡ false
unfolding base_id
base_id-ne_nil rule = ground (
  arith,
  prefix_of-ne_nil rule,
  empty-append (prefix_of (kind_of rule)) (b'-' ∷ slugify (target_of rule)),
)

-- A generated id is never empty.
pub unique_id-ne_nil : (taken : List Text) (rule : Rule) → empty (unique_id taken rule) ≡ false
unique_id-ne_nil taken rule = elim (unique_id-first taken rule) [
  | inl (f, e) ↦ rw e (base_id-ne_nil rule)
  | inr (t, (k, e, first)) ↦
      rw e (empty-append (base_id rule) (b'-' ∷ to_string k) (base_id-ne_nil rule))
]

-- An id made for a new rule is no id of the bundle: neither of the baseline nor of any template.
pub make_rule_id-free :
    (bundle : TemplateBundle) (rule : Rule)
    → (member (make_rule_id bundle rule) (ids bundle.baseline.rules) ≡ false)
      × (member (make_rule_id bundle rule) (ids_of_templates bundle.templates) ≡ false)
unfolding make_rule_id all_ids
make_rule_id-free bundle rule = ground (
  arith,
  unique_id-free (all_ids bundle) rule,
  member-append (make_rule_id bundle rule) (ids bundle.baseline.rules)
      (ids_of_templates bundle.templates),
)
