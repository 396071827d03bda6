-- ===== src/Tests/Data.antt =====
-- An order, and what the tests read of it.
use quickbite_analytics_serv.Base.{String, [], ◌∷◌}
use quickbite_analytics_serv.Base.Int.{ℤ, pos, negsuc}
use quickbite_analytics_serv.Types.{
  OrderItemInput, OnOrderPlacedInput, OnOrderRejectedInput, OnOrderDeliveredInput,
}

-- every instant of the tests is on one day
abbrev pub utc_date : ℤ → String
utc_date t = "2026-05-21"

abbrev pub pizza : OrderItemInput
pizza = record { product_id = pos 31; quantity = pos 2; line_total = pos 1800 }

abbrev pub cola : OrderItemInput
cola = record { product_id = pos 32; quantity = pos 1; line_total = pos 200 }

abbrev pub order : OnOrderPlacedInput
order = record {
  order_id = "ord-1";
  restaurant_id = pos 7;
  branch_id = pos 70;
  country_code = "EG";
  currency = "EGP";
  total = pos 2500;
  placed_at = pos 1000;
  items = pizza ∷ cola ∷ [];
}

abbrev pub rejection : OnOrderRejectedInput
rejection = record {
  order_id = "ord-1";
  restaurant_id = pos 7;
  branch_id = pos 70;
  country_code = "EG";
  currency = "EGP";
  rejected_at = pos 2000;
}

-- a delivery whose clock runs behind
abbrev pub skewed_delivery : OnOrderDeliveredInput
skewed_delivery = record {
  order_id = "ord-1";
  restaurant_id = pos 7;
  branch_id = pos 70;
  country_code = "EG";
  currency = "EGP";
  delivered_at = pos 3000;
  delivery_ms = negsuc 4;
}
