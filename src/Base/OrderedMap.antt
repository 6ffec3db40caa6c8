-- ===== src/Base/OrderedMap.antt =====
-- std::map with string keys: an association list kept in the order of the keys.
use mathlib.Core.Path.{◌≡◌, refl, ◌∙◌, ap, sym, subst₂}
use mathlib.Core.Logic.{inl, inr}
use mathlib.Core.Bool.{Bool, true}
use mathlib.Core.List.{List, [], ◌∷◌}
use mathlib.Core.Option.{Option, none, some}
use native.Mathlib.Omega.{arith}
use lab_monitor.Base.Tests.{if◌then◌else◌, Bool-cases}
use lab_monitor.Base.Lists.{All}
use lab_monitor.Base.Strings.{
  Text, str_eq, str_eq_iff, text_ltb, text_ltb_irrefl, text_ltb_trans, text_ltb_connex,
}

abbrev pub Map {ℓ} : Type ℓ → Type ℓ
Map V = List (Text × V)

module _ {ℓ} {V : Type ℓ} where
  none-ne-some : {v : V} → none ≡ some v → ⊥
  none-ne-some h = cc

  head_eq :
      {v w : V} (o : Option V) (b : Bool) → b ≡ true → (if b then some w else o) ≡ some v → w ≡ v
  head_eq o b e h = ground arith

  unfoldable pub find : Text → Map V → Option V
  find k [] = none
  find k ((j, v) ∷ m) = if str_eq k j then some v else find k m

  unfoldable pub insert_or_assign : Text → V → Map V → Map V
  insert_or_assign k v [] = (k, v) ∷ []
  insert_or_assign k v ((j, w) ∷ m) =
      if str_eq k j
      then (k, v) ∷ m
      else if text_ltb k j
      then (k, v) ∷ (j, w) ∷ m
      else (j, w) ∷ insert_or_assign k v m

  unfoldable pub erase : Text → Map V → Map V
  erase k [] = []
  erase k ((j, w) ∷ m) = let rest = erase k m in if str_eq k j then rest else (j, w) ∷ rest

  -- A map filled by emplace: of several entries under a key the first stays.
  unfoldable pub of_list : List (Text × V) → Map V
  of_list [] = []
  of_list ((k, v) ∷ entries) = insert_or_assign k v (of_list entries)

  -- Iteration over the values goes in the order of the keys.
  unfoldable pub values : Map V → List V
  values [] = []
  values ((j, w) ∷ m) = w ∷ values m

  -- The keys stand in strictly rising order.
  abbrev pub IsOrdered : Map V → Type 0
  IsOrdered [] = Unit
  IsOrdered ((j, w) ∷ m) = All (λ (p : Text × V). text_ltb j p.0 ≡ true) m × IsOrdered m

  pub find-insert :
      (j k : Text) (v : V) (m : Map V)
      → find j (insert_or_assign k v m) ≡ (if str_eq k j then some v else find j m)
  unfolding find insert_or_assign
  find-insert j k v [] = ground (arith, str_eq_iff j k, str_eq_iff k j)
  find-insert j k v ((i, w) ∷ m) =
      ground
        (arith, str_eq_iff k j, str_eq_iff j k, str_eq_iff k i, str_eq_iff j i, find-insert j k v m)

  pub find-erase :
      (j k : Text) (m : Map V) → find j (erase k m) ≡ (if str_eq k j then none else find j m)
  unfolding find erase
  find-erase j k [] = ground arith
  find-erase j k ((i, w) ∷ m) =
      ground (arith, str_eq_iff k j, str_eq_iff k i, str_eq_iff j i, find-erase j k m)

  -- What holds of every entry holds behind an insertion of an entry of which it holds.
  pub insert-All {κ} :
      (P : Text × V → Type κ) (k : Text) (v : V) (m : Map V)
      → P (k, v)
      → All P m
      → All P (insert_or_assign k v m)
  unfolding insert_or_assign
  insert-All P k v [] h a = (h, tt)
  insert-All P k v ((i, w) ∷ m) h a = elim (Bool-cases (str_eq k i)) [
    | inl e ↦ rw e (h, a.1)
    | inr e ↦ rw e (elim (Bool-cases (text_ltb k i)) [
      | inl l ↦ rw l (h, a)
      | inr l ↦ rw l (a.0, insert-All P k v m h a.1)
    ])
  ]

  pub erase-All {κ} : (P : Text × V → Type κ) (k : Text) (m : Map V) → All P m → All P (erase k m)
  unfolding erase
  erase-All P k [] a = tt
  erase-All P k ((i, w) ∷ m) a = elim (Bool-cases (str_eq k i)) [
    | inl e ↦ rw e (erase-All P k m a.1)
    | inr e ↦ rw e (a.0, erase-All P k m a.1)
  ]

  pub find-All {κ} :
      (P : Text × V → Type κ) (k : Text) (m : Map V) (v : V)
      → All P m
      → find k m ≡ some v
      → P (k, v)
  unfolding find
  find-All P k [] v a h = absurd (none-ne-some h)
  find-All P k ((i, w) ∷ m) v a h = elim (Bool-cases (str_eq k i)) [
    | inl e ↦
        subst₂ (λ x y. P (x, y)) (sym ((str_eq_iff k i).0 e)) (head_eq (find k m) (str_eq k i) e h)
          a.0
    | inr e ↦ find-All P k m v a.1 (rw e at h)
  ]

  All-insert :
      (j k : Text) (v : V) (m : Map V)
      → text_ltb j k ≡ true
      → All (λ (p : Text × V). text_ltb j p.0 ≡ true) m
      → All (λ (p : Text × V). text_ltb j p.0 ≡ true) (insert_or_assign k v m)
  unfolding insert_or_assign
  All-insert j k v [] h a = (h, tt)
  All-insert j k v ((i, w) ∷ m) h a = ground (arith, All-insert j k v m h a.1)

  All-below :
      (j k : Text) (m : Map V)
      → text_ltb j k ≡ true
      → All (λ (p : Text × V). text_ltb k p.0 ≡ true) m
      → All (λ (p : Text × V). text_ltb j p.0 ≡ true) m
  All-below j k [] h a = tt
  All-below j k ((i, w) ∷ m) h a = (text_ltb_trans j k i h a.0, All-below j k m h a.1)

  pub insert-IsOrdered :
      (k : Text) (v : V) (m : Map V) → IsOrdered m → IsOrdered (insert_or_assign k v m)
  unfolding insert_or_assign
  insert-IsOrdered k v [] o = (tt, tt)
  insert-IsOrdered k v ((j, w) ∷ m) o = ground (
    arith,
    str_eq_iff k j,
    str_eq_iff j k,
    All-below k j m,
    All-insert j k v m,
    text_ltb_connex k j,
    insert-IsOrdered k v m,
  )

  All-erase :
      (j k : Text) (m : Map V)
      → All (λ (p : Text × V). text_ltb j p.0 ≡ true) m
      → All (λ (p : Text × V). text_ltb j p.0 ≡ true) (erase k m)
  unfolding erase
  All-erase j k [] a = tt
  All-erase j k ((i, w) ∷ m) a = ground (arith, All-erase j k m a.1)

  pub erase-IsOrdered : (k : Text) (m : Map V) → IsOrdered m → IsOrdered (erase k m)
  unfolding erase
  erase-IsOrdered k [] o = tt
  erase-IsOrdered k ((j, w) ∷ m) o = ground (arith, erase-IsOrdered k m o.1, All-erase j k m o.0)

  pub find-of_list :
      (k : Text) (entries : List (Text × V)) → find k (of_list entries) ≡ find k entries
  unfolding of_list find
  find-of_list k [] = refl
  find-of_list k ((j, v) ∷ entries) =
      find-insert k j v (of_list entries)
      ∙ ground (arith, str_eq_iff k j, str_eq_iff j k, find-of_list k entries)

  pub of_list-IsOrdered : (m : Map V) → IsOrdered m → of_list m ≡ m
  unfolding of_list insert_or_assign
  of_list-IsOrdered [] h = refl
  of_list-IsOrdered ((k, v) ∷ m) (a, o) = rw (of_list-IsOrdered m o) (in_front m a)
    where
      in_front :
          (m : Map V)
          → All (λ (p : Text × V). text_ltb k p.0 ≡ true) m
          → insert_or_assign k v m ≡ (k, v) ∷ m
      in_front [] a = refl
      in_front ((j, w) ∷ m) a = elim (Bool-cases (str_eq k j)) [
        | inl e ↦
            absurd (
              ground (arith, a.0, ap (λ t. text_ltb k t) ((str_eq_iff k j).0 e), text_ltb_irrefl k))
        | inr e ↦ rw (e, a.0) refl
      ]
