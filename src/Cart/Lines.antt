-- ===== src/Cart/Lines.antt =====
-- What adding to the cart and removing from it make of its lines.
use lab_monitor.Base.{
  ℕ, suc, ◌+◌, ◌<◌, ◌≤◌, ◌≡◌, refl, ap, ◌∙◌, sym, inl, inr, arith, true, false, pos, leb_ℤ, Option,
  none, some, List, [], ◌∷◌, ◌++◌, map, if◌then◌else◌, length, member, Bool-cases, Text, str_eq,
  str_eq_iff, str_eq_comm, empty,
}
use lab_monitor.Cart.{Item, State, merge, merge_behind, merged_or_new, add, without, remove}

-- The units that an addition brings to the SKU `k`.
abbrev pub added : Text → ℕ → Text → ℕ
added sku quantity k = if str_eq sku k then quantity else 0

module _ {Price : Type 0} where
  -- The units of one SKU.
  pub units_of : Text → List (Item Price) → ℕ
  units_of k [] = 0
  units_of k (item ∷ items) =
      let rest = units_of k items in if str_eq item.sku k then item.quantity + rest else rest

  abbrev pub skus : List (Item Price) → List Text
  skus items = map (λ (item : Item Price). item.sku) items

  -- What `merge` makes of the lines: none of them has the SKU, or the first that has it gets more.
  abbrev IsMerged : List (Item Price) → Text → ℕ → Option (List (Item Price)) → Type 0
  IsMerged items sku quantity none = member sku (skus items) ≡ false
  IsMerged items sku quantity (some merged) =
      (member sku (skus items) ≡ true)
      × (skus merged ≡ skus items)
      × ((k : Text) → units_of k merged ≡ units_of k items + added sku quantity k)

  merge-IsMerged :
      (items : List (Item Price)) (sku : Text) (quantity : ℕ)
      → IsMerged items sku quantity (merge items sku quantity)
  unfolding merge units_of member
  merge-IsMerged [] sku quantity = refl
  merge-IsMerged (item ∷ items) sku quantity = elim (Bool-cases (str_eq item.sku sku)) [
    | inl e ↦ rw e (rw (str_eq_comm sku item.sku, e) refl, refl, more e)
    | inr e ↦ rw e (behind e (merge items sku quantity) (merge-IsMerged items sku quantity))
  ]
    where
      more :
          str_eq item.sku sku ≡ true
          → (k : Text)
          → units_of k (record item { quantity = item.quantity + quantity } ∷ items)
            ≡ units_of k (item ∷ items) + added sku quantity k
      more e k = ground (arith, ap (λ s. str_eq s k) ((str_eq_iff item.sku sku).0 e))

      behind :
          str_eq item.sku sku ≡ false
          → (o : Option (List (Item Price))) → IsMerged items sku quantity o
          → IsMerged (item ∷ items) sku quantity (merge_behind item o)
      behind e none h = ground (arith, str_eq_comm sku item.sku, e, h)
      behind e (some merged) (f, g, h) =
          (ground (arith, f), ap (λ s. item.sku ∷ s) g, λ k. ground (arith, h k))

  units_of-new :
      (items : List (Item Price)) (item : Item Price) (k : Text)
      → units_of k (items ++ item ∷ []) ≡ units_of k items + added item.sku item.quantity k
  unfolding units_of
  units_of-new [] item k = ground arith
  units_of-new (x ∷ items) item k = ground (arith, units_of-new items item k)

  skus-new :
      (items : List (Item Price)) (item : Item Price)
      → skus (items ++ item ∷ []) ≡ skus items ++ item.sku ∷ []
  skus-new [] item = refl
  skus-new (x ∷ items) item = ap (λ s. x.sku ∷ s) (skus-new items item)

  units_of-without :
      (items : List (Item Price)) (sku k : Text)
      → units_of k (without items sku) ≡ (if str_eq sku k then 0 else units_of k items)
  unfolding units_of without
  units_of-without [] sku k = ground arith
  units_of-without (item ∷ items) sku k = elim (Bool-cases (str_eq item.sku sku)) [
    | inl e ↦
        let same = ap (λ s. str_eq s k) ((str_eq_iff item.sku sku).0 e) in
        rw e (ground (arith, same, units_of-without items sku k))
    | inr e ↦ rw e (ground (arith, apart e, units_of-without items sku k))
  ]
    where
      apart : str_eq item.sku sku ≡ false → str_eq item.sku k ≡ true → str_eq sku k ≡ true → ⊥
      apart e f g = cc (
        e,
        (str_eq_iff item.sku sku).1 ((str_eq_iff item.sku k).0 f ∙ sym ((str_eq_iff sku k).0 g)),
      )

  length-without :
      (items : List (Item Price)) (sku : Text)
      → (member sku (skus items) ≡ true → length (without items sku) < length items)
        × (member sku (skus items) ≡ false → length (without items sku) ≡ length items)
        × (length (without items sku) ≤ length items)
  unfolding without member
  length-without [] sku = (λ e. cc, λ e. refl, omega arith)
  length-without (item ∷ items) sku =
      let (fewer, same, le) = length-without items sku in
      elim (Bool-cases (str_eq item.sku sku)) [
        | inl e ↦
            rw (e, str_eq_comm sku item.sku, e) (λ f. omega (arith, le), λ f. cc, omega (arith, le))
        | inr e ↦
            rw (e, str_eq_comm sku item.sku, e)
              (λ f. omega (arith, fewer f), λ f. omega (arith, same f), omega (arith, le))
      ]

  -- Adding a positive quantity of a SKU with a name raises the units of that SKU by the quantity and
  -- those of no other; the SKUs of the lines stay as they are, or get the new one at the end if they
  -- did not have it.
  pub units_of-add :
      (state : State Price) (sku : Text) (price : Price) (quantity : ℕ)
      → empty sku ≡ false
      → let after = add state sku price (pos (suc quantity)) in
        ((k : Text) → units_of k after.items ≡ units_of k state.items + added sku (suc quantity) k)
        × (skus after.items ≡ (
            if member sku (skus state.items)
            then skus state.items
            else skus state.items ++ sku ∷ []))
  unfolding add
  units_of-add state sku price quantity named =
      rw (named, positive)
        (go (merge state.items sku (suc quantity)) (merge-IsMerged state.items sku (suc quantity)))
    where
      positive : leb_ℤ (pos (suc quantity)) (pos 0) ≡ false
      positive = ground arith

      go :
          (o : Option (List (Item Price)))
          → IsMerged state.items sku (suc quantity) o
          → ((k : Text)
              → units_of k (merged_or_new state.items sku price (suc quantity) o)
                ≡ units_of k state.items + added sku (suc quantity) k)
            × (skus (merged_or_new state.items sku price (suc quantity) o) ≡ (
                if member sku (skus state.items)
                then skus state.items
                else skus state.items ++ sku ∷ []))
      go none h = (units_of-new state.items _, rw h (skus-new state.items _))
      go (some merged) (f, g, h) = (h, rw f g)

  -- Removing a SKU leaves no unit of it and all units of the others, and tells whether there was a line of it.
  pub units_of-remove :
      (state : State Price) (sku : Text)
      → ((k : Text)
          → units_of k (remove state sku).0.items
            ≡ (if str_eq sku k then 0 else units_of k state.items))
        × ((remove state sku).1 ≡ member sku (skus state.items))
  unfolding remove
  units_of-remove state sku =
      (units_of-without state.items sku, ground (arith, length-without state.items sku))
