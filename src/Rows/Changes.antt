-- ===== src/Rows/Changes.antt =====
-- What each event adds: the specification that the write side of the service is held to.
use quickbite_analytics_serv.Base.{String, List, [], ◌∷◌, ◌++◌}
use quickbite_analytics_serv.Base.Int.{ℤ, pos, negsuc}
use quickbite_analytics_serv.Mongo.Rows.{
  orders_count, revenue_sum, rejected_count, delivery_ms_sum, delivery_ms_count, units_sold,
}
use quickbite_analytics_serv.Types.{OrderItemInput}
use quickbite_analytics_serv.Rows.Sums.{Row, restaurant, branch, product, platform, Change}

abbrev pub order_change : Row → ℤ → List Change
order_change r total = (r, orders_count, pos 1) ∷ (r, revenue_sum, total) ∷ []

abbrev pub rejected_change : Row → List Change
rejected_change r = (r, rejected_count, pos 1) ∷ []

abbrev pub delivery_change : Row → ℤ → List Change
delivery_change r ms = (r, delivery_ms_sum, ms) ∷ (r, delivery_ms_count, pos 1) ∷ []

abbrev pub item_changes : ℤ → String → List OrderItemInput → List Change
item_changes restaurant_id date [] = []
item_changes restaurant_id date (it ∷ items) =
    (product restaurant_id it.product_id date, orders_count, pos 1)
    ∷ (product restaurant_id it.product_id date, units_sold, it.quantity)
    ∷ (product restaurant_id it.product_id date, revenue_sum, it.line_total)
    ∷ item_changes restaurant_id date items

-- One paid or placed order.
abbrev pub sale_changes : ℤ → ℤ → String → String → String → ℤ → List OrderItemInput → List Change
sale_changes restaurant_id branch_id date country_code currency total items =
    order_change (restaurant restaurant_id date) total
    ++ (order_change (branch branch_id date) total
        ++ (item_changes restaurant_id date items
            ++ order_change (platform date country_code currency) total))

-- One rejected order.
abbrev pub rejection_changes : ℤ → ℤ → String → String → String → List Change
rejection_changes restaurant_id branch_id date country_code currency =
    rejected_change (restaurant restaurant_id date)
    ++ (rejected_change (branch branch_id date)
        ++ rejected_change (platform date country_code currency))

-- The number, or 0 for a negative one.
abbrev pub at_least_zero : ℤ → ℤ
at_least_zero (pos n) = pos n
at_least_zero (negsuc n) = pos 0

-- One delivery.
abbrev pub delivery_changes : ℤ → ℤ → String → String → String → ℤ → List Change
delivery_changes restaurant_id branch_id date country_code currency ms =
    delivery_change (restaurant restaurant_id date) ms
    ++ (delivery_change (branch branch_id date) ms
        ++ delivery_change (platform date country_code currency) ms)
