-- ===== src/Controller/Responses.antt =====
-- app/analytics/dto: the shapes of the answers, and the conversions from the rows of the service.
use quickbite_analytics_serv.Base.{String, List, map}
use quickbite_analytics_serv.Base.Int.{ℤ}
use quickbite_analytics_serv.Types.{
  RestaurantDayRow, BranchDayRow, ProductDayRow, PlatformDayRow, FailureRow, DeliveryAvgRow,
  TopRestaurantRow, ActiveRestaurantsRow,
}

pub record RestaurantDayResponse : Type 0 where
  pub date : String
  pub orders_count : ℤ
  pub revenue_minor : ℤ
  pub currency : String
  pub avg_order_minor : ℤ

pub record BranchDayResponse : Type 0 where
  pub date : String
  pub orders_count : ℤ
  pub revenue_minor : ℤ
  pub currency : String
  pub avg_order_minor : ℤ

pub record ProductDayResponse : Type 0 where
  pub date : String
  pub orders_count : ℤ
  pub units_sold : ℤ
  pub revenue_minor : ℤ
  pub currency : String

pub record PlatformDayResponse : Type 0 where
  pub date : String
  pub currency : String
  pub orders_count : ℤ
  pub revenue_minor : ℤ
  pub avg_order_minor : ℤ

pub record FailureResponse (F : Type 0) : Type 0 where
  pub date : String
  pub orders_count : ℤ
  pub rejected_count : ℤ
  pub failure_rate : F

pub record DeliveryAvgResponse : Type 0 where
  pub date : String
  pub deliveries_counted : ℤ
  pub avg_delivery_ms : ℤ

pub record ActiveRestaurantsResponse : Type 0 where
  pub from : String
  pub to : String
  pub count : ℤ

pub record TopRestaurantResponse : Type 0 where
  pub restaurant_id : ℤ
  pub orders_count : ℤ
  pub revenue_minor : ℤ
  pub currency : String

unfoldable pub from_row : RestaurantDayRow → RestaurantDayResponse
from_row r = record {
  date = r.date;
  orders_count = r.orders_count;
  revenue_minor = r.revenue_minor;
  currency = r.currency;
  avg_order_minor = r.avg_order_minor;
}

unfoldable pub from_rows : List RestaurantDayRow → List RestaurantDayResponse
from_rows = map from_row

unfoldable pub from_branch_row : BranchDayRow → BranchDayResponse
from_branch_row r = record {
  date = r.date;
  orders_count = r.orders_count;
  revenue_minor = r.revenue_minor;
  currency = r.currency;
  avg_order_minor = r.avg_order_minor;
}

unfoldable pub from_branch_rows : List BranchDayRow → List BranchDayResponse
from_branch_rows = map from_branch_row

unfoldable pub from_product_row : ProductDayRow → ProductDayResponse
from_product_row r = record {
  date = r.date;
  orders_count = r.orders_count;
  units_sold = r.units_sold;
  revenue_minor = r.revenue_minor;
  currency = r.currency;
}

unfoldable pub from_product_rows : List ProductDayRow → List ProductDayResponse
from_product_rows = map from_product_row

unfoldable pub from_platform_row : PlatformDayRow → PlatformDayResponse
from_platform_row r = record {
  date = r.date;
  currency = r.currency;
  orders_count = r.orders_count;
  revenue_minor = r.revenue_minor;
  avg_order_minor = r.avg_order_minor;
}

unfoldable pub from_platform_rows : List PlatformDayRow → List PlatformDayResponse
from_platform_rows = map from_platform_row

unfoldable pub from_failure_row : {F : Type 0} → FailureRow F → FailureResponse F
from_failure_row r = record {
  date = r.date;
  orders_count = r.orders_count;
  rejected_count = r.rejected_count;
  failure_rate = r.failure_rate;
}

unfoldable pub from_failure_rows : {F : Type 0} → List (FailureRow F) → List (FailureResponse F)
from_failure_rows = map from_failure_row

unfoldable pub from_delivery_avg_row : DeliveryAvgRow → DeliveryAvgResponse
from_delivery_avg_row r = record {
  date = r.date;
  deliveries_counted = r.deliveries_counted;
  avg_delivery_ms = r.avg_delivery_ms;
}

unfoldable pub from_delivery_avg_rows : List DeliveryAvgRow → List DeliveryAvgResponse
from_delivery_avg_rows = map from_delivery_avg_row

unfoldable pub from_active_restaurants : ActiveRestaurantsRow → ActiveRestaurantsResponse
from_active_restaurants r = record { from = r.from; to = r.to; count = r.count }

unfoldable pub from_top_restaurant_row : TopRestaurantRow → TopRestaurantResponse
from_top_restaurant_row r = record {
  restaurant_id = r.restaurant_id;
  orders_count = r.orders_count;
  revenue_minor = r.revenue_minor;
  currency = r.currency;
}

unfoldable pub from_top_restaurant_rows : List TopRestaurantRow → List TopRestaurantResponse
from_top_restaurant_rows = map from_top_restaurant_row

-- What the endpoints answer.
pub data Answer (F : Type 0) : Type 0 where
  restaurant_days : List RestaurantDayResponse → Answer F
  failures : List (FailureResponse F) → Answer F
  delivery_avgs : List DeliveryAvgResponse → Answer F
  branch_days : List BranchDayResponse → Answer F
  product_days : List ProductDayResponse → Answer F
  platform_days : List PlatformDayResponse → Answer F
  active_restaurants : ActiveRestaurantsResponse → Answer F
  top_restaurants : List TopRestaurantResponse → Answer F
