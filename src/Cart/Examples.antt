-- ===== src/Cart/Examples.antt =====
-- Runs of the cart at one line.
use lab_monitor.Base.{ℕ, ◌≡◌, refl, pos, [], ◌∷◌, text, str_eq}
use lab_monitor.Cart.{State, add, unit_count}

abbrev one_line : State ℕ
one_line = record {
  items = (record { sku = text "A-1"; price = 950; quantity = 2 }) ∷ [];
  status = text "Ready";
}

merged_run : unit_count (add one_line (text "A-1") 1 (pos 3)) ≡ 5
unfolding unit_count add text str_eq
merged_run = refl

refused_run : add one_line (text "B-2") 100 (pos 0) ≡ one_line
unfolding add text
refused_run = refl
