-- ===== src/Types.antt =====
-- app/analytics/types.go, enums.go and errors.go: the inputs of the service, the rows of its
-- queries, and the catalogue of its errors.
use quickbite_analytics_serv.Base.{String, List}
use quickbite_analytics_serv.Base.Int.{ℤ}
use quickbite_analytics_serv.Errors.{AppError}
use quickbite_analytics_serv.Mongo.Values.{Time}

pub record OrderItemInput : Type 0 where
  pub product_id : ℤ
  pub quantity : ℤ
  pub line_total : ℤ

pub record OnOrderPlacedInput : Type 0 where
  pub order_id : String
  pub restaurant_id : ℤ
  pub branch_id : ℤ
  pub country_code : String
  pub currency : String
  pub total : ℤ
  pub placed_at : Time
  pub items : List OrderItemInput

pub record OnOrderRejectedInput : Type 0 where
  pub order_id : String
  pub restaurant_id : ℤ
  pub branch_id : ℤ
  pub country_code : String
  pub currency : String
  pub rejected_at : Time

pub record OnOrderDeliveredInput : Type 0 where
  pub order_id : String
  pub restaurant_id : ℤ
  pub branch_id : ℤ
  pub country_code : String
  pub currency : String
  pub delivered_at : Time
  pub delivery_ms : ℤ

pub record OnPaymentCompletedInput : Type 0 where
  pub order_id : String
  pub restaurant_id : ℤ
  pub branch_id : ℤ
  pub country_code : String
  pub currency : String
  pub total : ℤ
  pub completed_at : Time
  pub items : List OrderItemInput

pub record RestaurantDayRow : Type 0 where
  pub date : String
  pub orders_count : ℤ
  pub revenue_minor : ℤ
  pub currency : String
  pub avg_order_minor : ℤ

pub record RestaurantDayQuery : Type 0 where
  pub restaurant_id : ℤ
  pub from : String
  pub to : String

pub record BranchDayRow : Type 0 where
  pub date : String
  pub orders_count : ℤ
  pub revenue_minor : ℤ
  pub currency : String
  pub avg_order_minor : ℤ

pub record BranchDayQuery : Type 0 where
  pub branch_id : ℤ
  pub from : String
  pub to : String

pub record ProductDayRow : Type 0 where
  pub date : String
  pub orders_count : ℤ
  pub units_sold : ℤ
  pub revenue_minor : ℤ
  pub currency : String

pub record ProductDayQuery : Type 0 where
  pub product_id : ℤ
  pub from : String
  pub to : String

pub record PlatformDayRow : Type 0 where
  pub date : String
  pub currency : String
  pub orders_count : ℤ
  pub revenue_minor : ℤ
  pub avg_order_minor : ℤ

pub record DateRangeQuery : Type 0 where
  pub from : String
  pub to : String

-- `F` is float64.
pub record FailureRow (F : Type 0) : Type 0 where
  pub date : String
  pub orders_count : ℤ
  pub rejected_count : ℤ
  pub failure_rate : F

pub record FailureQuery : Type 0 where
  pub restaurant_id : ℤ
  pub from : String
  pub to : String

pub record DeliveryAvgRow : Type 0 where
  pub date : String
  pub deliveries_counted : ℤ
  pub avg_delivery_ms : ℤ

pub record DeliveryAvgQuery : Type 0 where
  pub restaurant_id : ℤ
  pub from : String
  pub to : String

pub record TopRestaurantRow : Type 0 where
  pub restaurant_id : ℤ
  pub orders_count : ℤ
  pub revenue_minor : ℤ
  pub currency : String

pub record TopRestaurantsQuery : Type 0 where
  pub from : String
  pub to : String
  pub limit : ℤ

pub record ActiveRestaurantsRow : Type 0 where
  pub from : String
  pub to : String
  pub count : ℤ

abbrev pub perm_restaurant_read : String
perm_restaurant_read = "core:restaurant:read"

abbrev pub perm_branch_read : String
perm_branch_read = "core:branch:read"

abbrev pub perm_product_read : String
perm_product_read = "core:product:read"

abbrev pub event_order_placed : String
event_order_placed = "order.placed"

abbrev pub event_order_delivered : String
event_order_delivered = "order.delivered"

abbrev pub event_order_rejected : String
event_order_rejected = "order.rejected"

abbrev pub event_payment_complete : String
event_payment_complete = "payment.completed"

abbrev pub err_invalid_date_range : AppError
err_invalid_date_range = record {
  code = "ANALYTICS_INVALID_DATE_RANGE";
  status = 400;
  message = "`from` must be on or before `to`";
}

abbrev pub err_validation : AppError
err_validation = record { code = "VALIDATION_ERROR"; status = 400; message = "invalid request" }

abbrev pub err_bad_path_id : AppError
err_bad_path_id = record {
  code = "VALIDATION_ERROR";
  status = 400;
  message = "invalid path parameter";
}

abbrev pub err_tenant_mismatch : AppError
err_tenant_mismatch = record {
  code = "TENANT_MISMATCH";
  status = 403;
  message = "cannot view analytics for resources outside your tenant";
}
