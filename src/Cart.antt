-- ===== src/Cart.antt =====
-- tools/shopping_cart/cart_state.cpp: the cart that a DDS rule is written against. A price is a value
-- of a type that is a parameter; quantities and their sum are taken to fit a std::int32_t. `total` and
-- the prices in rule_paths are arithmetic on double and are not modelled.
pub mod Lines
mod Examples
use lab_monitor.Base.{
  ℕ, ◌+◌, Bool, true, false, not, ◌&&◌, ◌||◌, ℤ, pos, leb_ℤ, pos_part, Option, none, some, List, [],
  ◌∷◌, ◌++◌, ltb, length, if◌then◌else◌, Text, str_eq, empty,
}

pub record Item (Price : Type 0) : Type 0 where
  pub sku : Text
  pub price : Price
  pub quantity : ℕ

pub record State (Price : Type 0) : Type 0 where
  pub items : List (Item Price)
  pub status : Text

module _ {Price : Type 0} where
  abbrev pub is_line : Text → Item Price → Bool
  is_line sku item = str_eq item.sku sku

  abbrev pub merge_behind : Item Price → Option (List (Item Price)) → Option (List (Item Price))
  merge_behind item none = none
  merge_behind item (some items) = some (item ∷ items)

  -- The search for a line with the SKU and the write to it; none where there is no such line.
  unfoldable pub merge : List (Item Price) → Text → ℕ → Option (List (Item Price))
  merge [] sku quantity = none
  merge (item ∷ items) sku quantity =
      let rest = merge items sku quantity in
      if is_line sku item
      then some (record item { quantity = item.quantity + quantity } ∷ items)
      else merge_behind item rest

  abbrev pub merged_or_new :
      List (Item Price) → Text → Price → ℕ → Option (List (Item Price)) → List (Item Price)
  merged_or_new items sku price quantity none =
      items ++ (record { sku = sku; price = price; quantity = quantity }) ∷ []
  merged_or_new items sku price quantity (some merged) = merged

  unfoldable pub add : State Price → Text → Price → ℤ → State Price
  unfolding merge
  add state sku price quantity =
      if empty sku || leb_ℤ quantity (pos 0) then state else record state {
        items =
            merged_or_new state.items sku price (pos_part quantity)
              (merge state.items sku (pos_part quantity));
      }

  unfoldable pub without : List (Item Price) → Text → List (Item Price)
  without [] sku = []
  without (item ∷ items) sku =
      let rest = without items sku in if is_line sku item then rest else item ∷ rest

  -- The state behind the call, and whether a line was removed.
  unfoldable pub remove : State Price → Text → State Price × Bool
  unfolding without
  remove state sku =
      let left = without state.items sku in
      (record state { items = left }, ltb (length left) (length state.items))

  unfoldable pub units : List (Item Price) → ℕ
  units [] = 0
  units (item ∷ items) = item.quantity + units items

  unfoldable pub unit_count : State Price → ℕ
  unfolding units
  unit_count state = units state.items
