-- ===== src/Version/Order.antt =====
-- `compare` of versions against the order of the components, and what the six operators mean.
use lab_monitor.Base.{
  ℕ, zero, suc, ◌+◌, ◌-◌, ◌≤◌, ◌<◌, max, true, not, List, [], ◌∷◌, ℤ, pos, negsuc, leb_ℤ, ◌≡◌, ◌↔◌,
  refl, sym, ◌∙◌, arith, length, get_or, ◌==◌, Bool-cases, inl, inr, ap, subst,
}
use native.Mathlib.Decide.{dec_lt}
use lab_monitor.Version.{
  Version, equal, not_equal, less, less_equal, greater, greater_equal, component_at, compare_from,
  compare, satisfies,
}

-- Up to the index the components agree, and there the left one is the smaller.
abbrev pub LessAt : Version → Version → ℕ → Type 0
LessAt a b i =
    ((j : ℕ) → j < i → component_at a j ≡ component_at b j) × (component_at a i < component_at b i)

get_or_end : (xs : List ℕ) (i : ℕ) → length xs ≤ i → get_or xs i 0 ≡ 0
get_or_end [] i h = refl
get_or_end (x ∷ xs) zero h = absurd (omega arith)
get_or_end (x ∷ xs) (suc i) h = get_or_end xs i (omega arith)

-- Rounds behind the last component of both change nothing.
compare_from_end :
    (a b : Version) (n i : ℕ)
    → length a.parts ≤ i
    → length b.parts ≤ i
    → compare_from a b n i ≡ pos 0
unfolding compare_from
compare_from_end a b zero i h k = refl
compare_from_end a b (suc n) i h k =
    ground (arith, get_or_end a.parts i, get_or_end b.parts i, compare_from_end a b n (i + 1))

compare_from_more :
    (a b : Version) (n m i : ℕ)
    → max (length a.parts) (length b.parts) ≤ i + n
    → n ≤ m
    → compare_from a b m i ≡ compare_from a b n i
unfolding compare_from
compare_from_more a b zero m i h k = compare_from_end a b m i (omega arith) (omega arith)
compare_from_more a b (suc n) zero i h k = absurd (omega arith)
compare_from_more a b (suc n) (suc m) i h k = ground (arith, compare_from_more a b n m (i + 1))

compare_at :
    (a b : Version) (m : ℕ)
    → length a.parts ≤ m
    → length b.parts ≤ m
    → compare a b ≡ compare_from a b m 0
unfolding compare
compare_at a b m h k =
    sym (
      compare_from_more a b (max (length a.parts) (length b.parts)) m 0 (omega arith) (omega arith))

abbrev pub negate : ℤ → ℤ
negate (pos zero) = pos 0
negate (pos (suc n)) = negsuc n
negate (negsuc n) = pos (n + 1)

compare_from_swap : (a b : Version) (n i : ℕ) → compare_from b a n i ≡ negate (compare_from a b n i)
unfolding compare_from
compare_from_swap a b zero i = refl
compare_from_swap a b (suc n) i = ground (arith, compare_from_swap a b n (i + 1))

-- Swapping the two versions swaps the sign of the comparison.
pub compare_antisym : (a b : Version) → compare b a ≡ negate (compare a b)
compare_antisym a b =
    let m = length a.parts + length b.parts in
    compare_at b a m (omega arith) (omega arith)
    ∙ compare_from_swap a b m 0
    ∙ ap negate (sym (compare_at a b m (omega arith) (omega arith)))

compare_from_trans :
    (a b c : Version) (n i : ℕ)
    → leb_ℤ (compare_from a b n i) (pos 0) ≡ true
    → leb_ℤ (compare_from b c n i) (pos 0) ≡ true
    → leb_ℤ (compare_from a c n i) (pos 0) ≡ true
unfolding compare_from
compare_from_trans a b c zero i h k = refl
compare_from_trans a b c (suc n) i h k = ground (arith, compare_from_trans a b c n (i + 1))

-- "Not later than" is transitive, also between versions of different lengths.
pub compare_trans :
    (a b c : Version)
    → leb_ℤ (compare a b) (pos 0) ≡ true
    → leb_ℤ (compare b c) (pos 0) ≡ true
    → leb_ℤ (compare a c) (pos 0) ≡ true
compare_trans a b c h k =
    let m = length a.parts + length b.parts + length c.parts in
    rw (compare_at a c m (omega arith) (omega arith)) (
      compare_from_trans a b c m 0 (rw (compare_at a b m (omega arith) (omega arith)) at h)
        (rw (compare_at b c m (omega arith) (omega arith)) at k))

-- The components of the two versions agree from `i` to below `j`.
abbrev AgreeFrom : Version → Version → ℕ → ℕ → Type 0
AgreeFrom a b i j = (k : ℕ) → i ≤ k → k < j → component_at a k ≡ component_at b k

agree_extend :
    (a b : Version) (i j : ℕ)
    → component_at a i ≡ component_at b i
    → AgreeFrom a b (i + 1) j
    → AgreeFrom a b i j
agree_extend a b i j e h k p q = elim (dec_lt i k) [
  | yes l ↦ h k (omega arith) q
  | no l ↦ let same : i ≡ k = omega arith in subst (λ n. component_at a n ≡ component_at b n) same e
]

compare_from-less :
    (a b : Version) (n i : ℕ)
    → compare_from a b n i ≡ negsuc 0
    → (j : ℕ) × AgreeFrom a b i j × (component_at a j < component_at b j)
unfolding compare_from
compare_from-less a b zero i h = cc
compare_from-less a b (suc n) i h = elim (Bool-cases (component_at a i == component_at b i)) [
  | inl e ↦
      let (j, agree, lt) = compare_from-less a b n (i + 1) (ground arith) in
      (j, agree_extend a b i j (ground arith) agree, lt)
  | inr e ↦ (i, λ k p q. absurd (omega arith), ground arith)
]

compare_from-eq : (a b : Version) (n i : ℕ) → compare_from a b n i ≡ pos 0 → AgreeFrom a b i (i + n)
unfolding compare_from
compare_from-eq a b zero i h = λ k p q. absurd (omega arith)
compare_from-eq a b (suc n) i h = λ k p q.
    agree_extend a b i (i + suc n) (ground arith)
      (λ l r t. compare_from-eq a b n (i + 1) (ground arith) l r (omega arith)) k p q

compare_from_agree :
    (a b : Version) (n i j : ℕ)
    → AgreeFrom a b i j
    → i ≤ j
    → j ≤ i + n
    → compare_from a b n i ≡ compare_from a b (i + n - j) j
unfolding compare_from
compare_from_agree a b zero i j h p q = let same : j ≡ i = omega arith in rw same (ground (arith))
compare_from_agree a b (suc n) i j h p q = elim (dec_lt i j) [
  | yes l ↦ ground (arith, h i, compare_from_agree a b n (i + 1) j (λ k r t. h k (omega arith) t))
  | no l ↦
      let same : j ≡ i = omega arith in
      let all : i + suc n - i ≡ suc n = omega arith in rw (same, all)
]

-- Two versions compare equal exactly when all components agree, missing ones read as zero.
pub compare-eq_iff :
    (a b : Version) → (compare a b ≡ pos 0) ↔ ((i : ℕ) → component_at a i ≡ component_at b i)
compare-eq_iff a b = (forward, backward)
  where
    m : ℕ
    m = length a.parts + length b.parts

    at_m : compare a b ≡ compare_from a b m 0
    at_m = compare_at a b m (omega arith) (omega arith)

    forward : compare a b ≡ pos 0 → (i : ℕ) → component_at a i ≡ component_at b i
    forward h i = elim (dec_lt i m) [
      | yes l ↦ compare_from-eq a b m 0 (sym at_m ∙ h) i (omega arith) (omega arith)
      | no l ↦ get_or_end a.parts i (omega arith) ∙ sym (get_or_end b.parts i (omega arith))
    ]

    backward : ((i : ℕ) → component_at a i ≡ component_at b i) → compare a b ≡ pos 0
    backward h =
        at_m
        ∙ compare_from_agree a b m 0 m (λ k _ _. h k) (omega arith) (omega arith)
        ∙ compare_from_end a b (0 + m - m) m (omega arith) (omega arith)

-- A version is earlier exactly when its first component that differs is the smaller one.
pub compare-less_iff : (a b : Version) → (compare a b ≡ negsuc 0) ↔ ((i : ℕ) × LessAt a b i)
unfolding compare_from
compare-less_iff a b = (forward, backward)
  where
    forward : compare a b ≡ negsuc 0 → (i : ℕ) × LessAt a b i
    forward h =
        let m = length a.parts + length b.parts in
        let (i, agree, lt) =
          compare_from-less a b m 0 (sym (compare_at a b m (omega arith) (omega arith)) ∙ h) in
        (i, ((λ j l. agree j (omega arith) l), lt))

    backward : ((i : ℕ) × LessAt a b i) → compare a b ≡ negsuc 0
    backward (i, (agree, lt)) =
        let m = length a.parts + length b.parts + suc i in
        let one : 0 + m - i ≡ suc (length a.parts + length b.parts) = omega arith in
        compare_at a b m (omega arith) (omega arith)
        ∙ compare_from_agree a b m 0 i (λ k _ l. agree k l) (omega arith) (omega arith)
        ∙ rw one (ground arith)

-- The six operators are three pairs of opposites, and "greater" is "less" with the versions swapped.
pub satisfies_opposite :
    (a b : Version)
    → (satisfies a (record { op = not_equal; value = b })
        ≡ not (satisfies a (record { op = equal; value = b })))
      × (satisfies a (record { op = greater_equal; value = b })
          ≡ not (satisfies a (record { op = less; value = b })))
      × (satisfies a (record { op = greater; value = b })
          ≡ not (satisfies a (record { op = less_equal; value = b })))
      × (satisfies b (record { op = greater; value = a })
          ≡ satisfies a (record { op = less; value = b }))
unfolding satisfies
satisfies_opposite a b = ground (arith, compare_antisym a b)
