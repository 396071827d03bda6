-- ===== src/Events/Items.antt =====
-- `toItemInputs` of app/analytics/eventhandlers/handlers.go: the lines of an order, merged by
-- product. `positions` is the Go map from a product to its index in `out`.
pub mod Laws
use quickbite_analytics_serv.Base.{
  ℕ, zero, suc, String, Bool, Option, none, some, List, [], ◌∷◌, ◌++◌, length, if◌then◌else◌,
}
use quickbite_analytics_serv.Base.Int.{ℤ, eqb_ℤ}
use quickbite_analytics_serv.Base.Int64.{add64}
use quickbite_analytics_serv.Types.{OrderItemInput}

-- `orderItemPayload`
pub record OrderItemPayload : Type 0 where
  pub product_id : ℤ
  pub quantity : ℤ
  pub unit_price_snapshot : ℤ
  pub line_total : ℤ

abbrev pub Positions : Type 0
Positions = List (ℤ × ℕ)

abbrev pub position_of : ℤ → Positions → Option ℕ
position_of p [] = none
position_of p ((q, n) ∷ positions) = if eqb_ℤ q p then some n else position_of p positions

-- `out[position].Quantity += it.Quantity; out[position].LineTotal += it.LineTotal`
abbrev pub add_line : OrderItemPayload → OrderItemInput → OrderItemInput
add_line it line = record line {
  quantity = add64 line.quantity it.quantity;
  line_total = add64 line.line_total it.line_total;
}

abbrev pub add_at : ℕ → OrderItemPayload → List OrderItemInput → List OrderItemInput
add_at n it [] = []
add_at zero it (line ∷ out) = add_line it line ∷ out
add_at (suc n) it (line ∷ out) = line ∷ add_at n it out

abbrev pub new_line : OrderItemPayload → OrderItemInput
new_line it = record {
  product_id = it.product_id;
  quantity = it.quantity;
  line_total = it.line_total;
}

-- One round of the loop.
unfoldable pub merge_item :
    OrderItemPayload → List OrderItemInput × Positions → List OrderItemInput × Positions
merge_item it (out, positions) = elim (position_of it.product_id positions) [
  | some position ↦ (add_at position it out, positions)
  | none ↦ (out ++ new_line it ∷ [], (it.product_id, length out) ∷ positions)
]

unfoldable pub merge_items :
    List OrderItemPayload → List OrderItemInput × Positions → List OrderItemInput × Positions
merge_items [] s = s
merge_items (it ∷ items) s = merge_items items (merge_item it s)

unfoldable pub to_item_inputs : List OrderItemPayload → List OrderItemInput
to_item_inputs items = (merge_items items ([], [])).0
