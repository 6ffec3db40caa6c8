-- ===== src/Base/Sorting.antt =====
-- std::ranges::sort with a comparison: the result is sorted and a permutation. Which of two elements
-- that the comparison does not tell apart comes first is left open by the standard; here the order
-- of the input is kept.
use Prim.Native.Nat.{◌+◌}
use mathlib.Core.Path.{◌≡◌, refl}
use mathlib.Core.Bool.{Bool, true, false}
use mathlib.Core.List.{List, [], ◌∷◌, Perm}
use mathlib.Core.List.Perm
use mathlib.Core.Logic.{inl, inr}
use native.Mathlib.Omega.{arith}
use lab_monitor.Base.Tests.{if◌then◌else◌, Bool-cases}
use lab_monitor.Base.Lists.{All, count_if}

module _ {ℓ} {A : Type ℓ} (less : A → A → Bool) where
  unfoldable pub insert_sorted : A → List A → List A
  insert_sorted x [] = x ∷ []
  insert_sorted x (y ∷ ys) =
      let rest = insert_sorted x ys in if less y x then y ∷ rest else x ∷ y ∷ ys

  unfoldable pub sort : List A → List A
  unfolding insert_sorted
  sort [] = []
  sort (x ∷ xs) = insert_sorted x (sort xs)

  -- No element stands behind one that it should come before.
  abbrev pub IsSorted : List A → Type 0
  IsSorted [] = Unit
  IsSorted (x ∷ xs) = All (λ y. less y x ≡ false) xs × IsSorted xs

  insert_sorted-perm : (x : A) (ys : List A) → Perm (insert_sorted x ys) (x ∷ ys)
  unfolding insert_sorted
  insert_sorted-perm x [] = Perm.refl (x ∷ [])
  insert_sorted-perm x (y ∷ ys) = elim (Bool-cases (less y x)) [
    | inl l ↦ rw l (Perm.trans (Perm.cons y (insert_sorted-perm x ys)) (Perm.swap x y ys))
    | inr l ↦ rw l (Perm.refl (x ∷ y ∷ ys))
  ]

  pub sort-perm : (xs : List A) → Perm (sort xs) xs
  unfolding sort
  sort-perm [] = Perm.refl []
  sort-perm (x ∷ xs) = Perm.trans (insert_sorted-perm x (sort xs)) (Perm.cons x (sort-perm xs))

  count_if-insert :
      (p : A → Bool) (x : A) (ys : List A)
      → count_if p (insert_sorted x ys) ≡ (if p x then 1 else 0) + count_if p ys
  unfolding insert_sorted count_if
  count_if-insert p x [] = refl
  count_if-insert p x (y ∷ ys) = elim (Bool-cases (less y x)) [
    | inl l ↦ rw l (omega (arith, count_if-insert p x ys))
    | inr l ↦ rw l
  ]

  pub count_if-sort : (p : A → Bool) (xs : List A) → count_if p (sort xs) ≡ count_if p xs
  unfolding sort count_if
  count_if-sort p [] = refl
  count_if-sort p (x ∷ xs) = omega (arith, count_if-insert p x (sort xs), count_if-sort p xs)

  All-insert {κ} :
      (P : A → Type κ) (x : A) (ys : List A) → P x → All P ys → All P (insert_sorted x ys)
  unfolding insert_sorted
  All-insert P x [] p h = (p, tt)
  All-insert P x (y ∷ ys) p h = elim (Bool-cases (less y x)) [
    | inl l ↦ rw l (h.0, All-insert P x ys p h.1)
    | inr l ↦ rw l (p, h)
  ]

  pub sort-All {κ} : (P : A → Type κ) (xs : List A) → All P xs → All P (sort xs)
  unfolding sort
  sort-All P [] h = tt
  sort-All P (x ∷ xs) h = All-insert P x (sort xs) h.0 (sort-All P xs h.1)

module _ {ℓ} {A : Type ℓ} (less : A → A → Bool)
    (asymm : (x y : A) → less x y ≡ true → less y x ≡ false)
    (trans : (x y z : A) → less y x ≡ false → less z y ≡ false → less z x ≡ false) where
  All-trans :
      (x y : A) (ys : List A)
      → less y x ≡ false
      → All (λ z. less z y ≡ false) ys
      → All (λ z. less z x ≡ false) ys
  All-trans x y [] h a = tt
  All-trans x y (z ∷ ys) h a = (trans x y z h a.0, All-trans x y ys h a.1)

  insert-IsSorted :
      (x : A) (ys : List A) → IsSorted less ys → IsSorted less (insert_sorted less x ys)
  unfolding insert_sorted
  insert-IsSorted x [] h = (tt, tt)
  insert-IsSorted x (y ∷ ys) h = elim (Bool-cases (less y x)) [
    | inl l ↦
        rw l
          (All-insert less (λ z. less z y ≡ false) x ys (asymm y x l) h.0, insert-IsSorted x ys h.1)
    | inr l ↦ rw (l) ((l, All-trans x y ys l h.0), h)
  ]

  pub sort-IsSorted : (xs : List A) → IsSorted less (sort less xs)
  unfolding sort
  sort-IsSorted [] = tt
  sort-IsSorted (x ∷ xs) = insert-IsSorted x (sort less xs) (sort-IsSorted xs)
