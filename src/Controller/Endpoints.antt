-- ===== src/Controller/Endpoints.antt =====
-- app/analytics/controller/analytics.controller.go: the handlers of the eight endpoints.
use quickbite_analytics_serv.Base.{String, str_eq, if◌then◌else◌}
use quickbite_analytics_serv.Base.Int.{ℤ, pos, leb_ℤ}
use quickbite_analytics_serv.Errors.{app, app_cause, Result, ok, err}
use quickbite_analytics_serv.Exec.{Exec, ◌>>=◌, ◌>>◌, pure, lift}
use quickbite_analytics_serv.Types.{err_validation, err_bad_path_id}
use quickbite_analytics_serv.Repository.Interfaces.{AnalyticsService}
use quickbite_analytics_serv.Rbac.Guards.{Request}
use quickbite_analytics_serv.Service.Queries.{
  Float64, query_restaurant_days, query_failures, query_delivery_avg, query_branch_days,
  query_product_days, query_platform_days, query_active_restaurants, query_top_restaurants,
}
use quickbite_analytics_serv.Controller.Responses.{
  from_rows, from_failure_rows, from_delivery_avg_rows, from_branch_rows, from_product_rows,
  from_platform_rows, from_active_restaurants, from_top_restaurant_rows, Answer, restaurant_days,
  failures, delivery_avgs, branch_days, product_days, platform_days, active_restaurants,
  top_restaurants,
}

-- `strconv.ParseInt(s, 10, 64)`, and the validator on the tags of the two kinds of query: the range,
-- `required,len=10` of both texts, and the limit, `omitempty,min=1,max=100`.
pub record Parsers : Type 0 where
  pub parse_int : String → Result ℤ
  pub validate_range_tags : String → String → Result (Unit {0})
  pub validate_limit_tags : String → String → ℤ → Result (Unit {0})

module _ (p : Parsers) where
  unfoldable pub positive_id : Result ℤ → Result ℤ
  positive_id (err e) = err (app err_bad_path_id)
  positive_id (ok id) = if leb_ℤ id (pos 0) then err (app err_bad_path_id) else ok id

  unfoldable pub parse_positive_id : Request → String → Result ℤ
  unfolding positive_id
  parse_positive_id r name = positive_id (p.parse_int (r.url_param name))

  -- `analytics.ErrValidation.WithCause(err)`
  abbrev invalid : {A : Type 0} → Result A → Result A
  invalid (err e) = err (app_cause err_validation e)
  invalid (ok a) = ok a

  unfoldable pub check_range : Request → Result (Unit {0})
  check_range r = invalid (p.validate_range_tags (r.query "from") (r.query "to"))

  -- An absent limit is 0.
  unfoldable pub parse_limit : Request → Result ℤ
  parse_limit r =
      if str_eq (r.query "limit") "" then ok (pos 0) else invalid (p.parse_int (r.query "limit"))

  module _ {W F : Type 0} (s : AnalyticsService W) (f : Float64 F) (r : Request) where
    unfoldable pub get_restaurant_days : Exec W (Answer F)
    unfolding parse_positive_id check_range from_rows
    get_restaurant_days = do
      id ← lift (parse_positive_id r "restaurantId")
      lift (check_range r)
      rows ←
          query_restaurant_days s r.claims
            (record { restaurant_id = id; from = r.query "from"; to = r.query "to" })
      pure (restaurant_days (from_rows rows))

    unfoldable pub get_restaurant_failures : Exec W (Answer F)
    unfolding parse_positive_id check_range from_failure_rows
    get_restaurant_failures = do
      id ← lift (parse_positive_id r "restaurantId")
      lift (check_range r)
      rows ←
          query_failures s r.claims f
            (record { restaurant_id = id; from = r.query "from"; to = r.query "to" })
      pure (failures (from_failure_rows rows))

    unfoldable pub get_restaurant_delivery_avg : Exec W (Answer F)
    unfolding parse_positive_id check_range from_delivery_avg_rows
    get_restaurant_delivery_avg = do
      id ← lift (parse_positive_id r "restaurantId")
      lift (check_range r)
      rows ←
          query_delivery_avg s r.claims
            (record { restaurant_id = id; from = r.query "from"; to = r.query "to" })
      pure (delivery_avgs (from_delivery_avg_rows rows))

    unfoldable pub get_branch_days : Exec W (Answer F)
    unfolding parse_positive_id check_range from_branch_rows
    get_branch_days = do
      id ← lift (parse_positive_id r "branchId")
      lift (check_range r)
      rows ←
          query_branch_days s r.claims
            (record { branch_id = id; from = r.query "from"; to = r.query "to" })
      pure (branch_days (from_branch_rows rows))

    unfoldable pub get_product_days : Exec W (Answer F)
    unfolding parse_positive_id check_range from_product_rows
    get_product_days = do
      id ← lift (parse_positive_id r "productId")
      lift (check_range r)
      rows ←
          query_product_days s r.claims
            (record { product_id = id; from = r.query "from"; to = r.query "to" })
      pure (product_days (from_product_rows rows))

    unfoldable pub get_platform_days : Exec W (Answer F)
    unfolding check_range from_platform_rows
    get_platform_days = do
      lift (check_range r)
      rows ← query_platform_days s r.claims (record { from = r.query "from"; to = r.query "to" })
      pure (platform_days (from_platform_rows rows))

    unfoldable pub get_active_restaurants : Exec W (Answer F)
    unfolding check_range from_active_restaurants
    get_active_restaurants = do
      lift (check_range r)
      row ←
          query_active_restaurants s r.claims (record { from = r.query "from"; to = r.query "to" })
      pure (active_restaurants (from_active_restaurants row))

    unfoldable pub get_top_restaurants : Exec W (Answer F)
    unfolding parse_limit from_top_restaurant_rows
    get_top_restaurants = do
      limit ← lift (parse_limit r)
      lift (invalid (p.validate_limit_tags (r.query "from") (r.query "to") limit))
      rows ←
          query_top_restaurants s r.claims
            (record { from = r.query "from"; to = r.query "to"; limit = limit })
      pure (top_restaurants (from_top_restaurant_rows rows))
