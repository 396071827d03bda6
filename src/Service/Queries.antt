-- ===== src/Service/Queries.antt =====
-- The read side of app/analytics/service/analytics.service.go: one method per endpoint.
pub mod Laws
pub mod Restaurant
use quickbite_analytics_serv.Base.{
  String, ◌≡◌, refl, Bool, true, false, ◌||◌, Option, List, map, if◌then◌else◌,
}
use quickbite_analytics_serv.Base.Int.{ℤ, pos, eqb_ℤ, ltb_ℤ, leb_ℤ}
use quickbite_analytics_serv.Base.Int64.{div64}
use quickbite_analytics_serv.Errors.{app, Result, ok, err}
use quickbite_analytics_serv.Exec.{Exec, ◌>>=◌, ◌>>◌, pure, fail, lift}
use quickbite_analytics_serv.Types.{
  RestaurantDayRow, RestaurantDayQuery, BranchDayRow, BranchDayQuery, ProductDayRow,
  ProductDayQuery, PlatformDayRow, DateRangeQuery, FailureRow, FailureQuery, DeliveryAvgRow,
  DeliveryAvgQuery, TopRestaurantRow, TopRestaurantsQuery, ActiveRestaurantsRow,
  err_tenant_mismatch,
}
use quickbite_analytics_serv.Rbac.Claims.{Claims}
use quickbite_analytics_serv.Repository.Entity.{
  AggRestaurantDay, AggBranchDay, AggProductDay, AggPlatformDay,
}
use quickbite_analytics_serv.Repository.RestaurantDay.{TopRestaurantsByRevenueRow}
use quickbite_analytics_serv.Repository.Interfaces.{AnalyticsService}
use quickbite_analytics_serv.Service.Dates.{validate_range}
use quickbite_analytics_serv.Service.Access.{can_access_restaurant, assert_branch_access}

abbrev pub guarded_avg : (sum count : ℤ) (zero : Bool) → eqb_ℤ count (pos 0) ≡ zero → ℤ
guarded_avg sum count true test = pos 0
guarded_avg sum count false test = div64 sum count test

unfoldable pub safe_avg : ℤ → ℤ → ℤ
unfolding div64
safe_avg sum count = guarded_avg sum count (eqb_ℤ count (pos 0)) refl

-- float64, of which the service uses a zero, the conversion from int64 and division.
pub record Float64 (F : Type 0) : Type 0 where
  pub zero : F
  pub of_int64 : ℤ → F
  pub divide : F → F → F

unfoldable pub failure_rate : {F : Type 0} → Float64 F → ℤ → ℤ → F
failure_rate f rejected orders =
    if ltb_ℤ (pos 0) orders then f.divide (f.of_int64 rejected) (f.of_int64 orders) else f.zero

-- The default of the limit, and its bounds.
unfoldable pub effective_limit : ℤ → ℤ
effective_limit limit = if leb_ℤ limit (pos 0) || ltb_ℤ (pos 100) limit then pos 10 else limit

-- The bodies of the loops that build the rows.
unfoldable pub restaurant_day_row : AggRestaurantDay → RestaurantDayRow
restaurant_day_row r = record {
  date = r.date;
  orders_count = r.orders_count;
  revenue_minor = r.revenue_sum;
  currency = r.currency;
  avg_order_minor = safe_avg r.revenue_sum r.orders_count;
}

unfoldable pub branch_day_row : AggBranchDay → BranchDayRow
branch_day_row r = record {
  date = r.date;
  orders_count = r.orders_count;
  revenue_minor = r.revenue_sum;
  currency = r.currency;
  avg_order_minor = safe_avg r.revenue_sum r.orders_count;
}

unfoldable pub product_day_row : AggProductDay → ProductDayRow
product_day_row r = record {
  date = r.date;
  orders_count = r.orders_count;
  units_sold = r.units_sold;
  revenue_minor = r.revenue_sum;
  currency = r.currency;
}

unfoldable pub platform_day_row : AggPlatformDay → PlatformDayRow
platform_day_row r = record {
  date = r.date;
  currency = r.currency;
  orders_count = r.orders_count;
  revenue_minor = r.revenue_sum;
  avg_order_minor = safe_avg r.revenue_sum r.orders_count;
}

unfoldable pub failure_row : {F : Type 0} → Float64 F → AggRestaurantDay → FailureRow F
failure_row f r = record {
  date = r.date;
  orders_count = r.orders_count;
  rejected_count = r.rejected_count;
  failure_rate = failure_rate f r.rejected_count r.orders_count;
}

unfoldable pub delivery_avg_row : AggRestaurantDay → DeliveryAvgRow
delivery_avg_row r = record {
  date = r.date;
  deliveries_counted = r.delivery_ms_count;
  avg_delivery_ms = safe_avg r.delivery_ms_sum r.delivery_ms_count;
}

unfoldable pub top_restaurant_row : TopRestaurantsByRevenueRow → TopRestaurantRow
top_restaurant_row r = record {
  restaurant_id = r.restaurant_id;
  orders_count = r.orders_count;
  revenue_minor = r.revenue_sum;
  currency = r.currency;
}

module _ {W : Type 0} (s : AnalyticsService W) (ctx : Option Claims) where
  -- `if !canAccessRestaurant(ctx, id) { return nil, ErrTenantMismatch }`
  abbrev require_restaurant : ℤ → Exec W (Unit {0})
  require_restaurant id =
      if can_access_restaurant ctx id then pure tt else fail (app err_tenant_mismatch)

  unfoldable pub query_restaurant_days : RestaurantDayQuery → Exec W (List RestaurantDayRow)
  query_restaurant_days q = do
    require_restaurant q.restaurant_id
    lift (validate_range q.from q.to)
    rows ← s.restaurant_repo.find_by_restaurant_in_range q.restaurant_id q.from q.to
    pure (map restaurant_day_row rows)

  unfoldable pub query_branch_days : BranchDayQuery → Exec W (List BranchDayRow)
  query_branch_days q = do
    assert_branch_access s.branch_repo ctx q.branch_id
    lift (validate_range q.from q.to)
    rows ← s.branch_repo.find_by_branch_in_range q.branch_id q.from q.to
    pure (map branch_day_row rows)

  unfoldable pub query_product_days : ProductDayQuery → Exec W (List ProductDayRow)
  query_product_days q = do
    lift (validate_range q.from q.to)
    rows ← s.product_repo.find_by_product_in_range q.product_id q.from q.to
    pure (map product_day_row rows)

  unfoldable pub query_platform_days : DateRangeQuery → Exec W (List PlatformDayRow)
  query_platform_days q = do
    lift (validate_range q.from q.to)
    rows ← s.platform_repo.find_in_range q.from q.to
    pure (map platform_day_row rows)

  unfoldable pub query_failures :
      {F : Type 0} → Float64 F → FailureQuery → Exec W (List (FailureRow F))
  query_failures f q = do
    require_restaurant q.restaurant_id
    lift (validate_range q.from q.to)
    rows ← s.restaurant_repo.find_by_restaurant_in_range q.restaurant_id q.from q.to
    pure (map (failure_row f) rows)

  unfoldable pub query_delivery_avg : DeliveryAvgQuery → Exec W (List DeliveryAvgRow)
  query_delivery_avg q = do
    require_restaurant q.restaurant_id
    lift (validate_range q.from q.to)
    rows ← s.restaurant_repo.find_by_restaurant_in_range q.restaurant_id q.from q.to
    pure (map delivery_avg_row rows)

  unfoldable pub query_active_restaurants : DateRangeQuery → Exec W ActiveRestaurantsRow
  query_active_restaurants q = do
    lift (validate_range q.from q.to)
    n ← s.restaurant_repo.count_active_restaurants_in_range q.from q.to
    pure (record { from = q.from; to = q.to; count = n })

  unfoldable pub query_top_restaurants : TopRestaurantsQuery → Exec W (List TopRestaurantRow)
  query_top_restaurants q = do
    lift (validate_range q.from q.to)
    rows ← s.restaurant_repo.top_restaurants_by_revenue q.from q.to (effective_limit q.limit)
    pure (map top_restaurant_row rows)
