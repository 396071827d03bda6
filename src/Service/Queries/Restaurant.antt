-- ===== src/Service/Queries/Restaurant.antt =====
-- The three queries of app/analytics/service/analytics.service.go on the days of a restaurant: when
-- they answer, and what.
use quickbite_analytics_serv.Base.{
  String, ◌≡◌, refl, sym, ap, ◌∙◌, ◌⊎◌, ◌↔◌, inl, inr, true, Bool-cases, Option, some, List, map,
  if◌then◌else◌,
}
use quickbite_analytics_serv.Base.Int.{ℤ, pos, ltb_ℤ}
use quickbite_analytics_serv.Base.Text.{codes, lex_leb}
use quickbite_analytics_serv.Errors.{Err, app, Result, ok, err, Result-cases}
use quickbite_analytics_serv.Exec.{Exec, ◌>>=◌, ◌>>◌, pure, lift}
use quickbite_analytics_serv.Types.{
  RestaurantDayRow, FailureRow, DeliveryAvgRow, err_tenant_mismatch,
}
use quickbite_analytics_serv.Rbac.Claims.{Claims}
use quickbite_analytics_serv.Repository.Entity.{AggRestaurantDay}
use quickbite_analytics_serv.Repository.Interfaces.{AnalyticsService}
use quickbite_analytics_serv.Service.Dates.{Date, parse_date, validate_range}
use quickbite_analytics_serv.Service.Dates.Order.{validate_range_iff}
use quickbite_analytics_serv.Service.Access.{can_access_restaurant}
use quickbite_analytics_serv.Service.Access.Laws.{can_access_restaurant_iff}
use quickbite_analytics_serv.Service.Queries.{
  Float64, safe_avg, failure_rate, require_restaurant, restaurant_day_row, failure_row,
  delivery_avg_row, query_restaurant_days, query_failures, query_delivery_avg,
}

-- What the rows of the answers say of a stored row.
abbrev pub day_of : AggRestaurantDay → RestaurantDayRow
day_of r = record {
  date = r.date;
  orders_count = r.orders_count;
  revenue_minor = r.revenue_sum;
  currency = r.currency;
  avg_order_minor = safe_avg r.revenue_sum r.orders_count;
}

-- the share of the rejections in the orders, 0 where there are none
abbrev pub failure_of : {F : Type 0} → Float64 F → AggRestaurantDay → FailureRow F
failure_of f r = record {
  date = r.date;
  orders_count = r.orders_count;
  rejected_count = r.rejected_count;
  failure_rate =
      if ltb_ℤ (pos 0) r.orders_count
      then f.divide (f.of_int64 r.rejected_count) (f.of_int64 r.orders_count)
      else f.zero;
}

abbrev pub delivery_of : AggRestaurantDay → DeliveryAvgRow
delivery_of r = record {
  date = r.date;
  deliveries_counted = r.delivery_ms_count;
  avg_delivery_ms = safe_avg r.delivery_ms_sum r.delivery_ms_count;
}

module _ {W : Type 0} (s : AnalyticsService W) (ctx : Option Claims) (id : ℤ) (from to : String)
    (w : W) where
  -- The caller may see the restaurant, the dates are real and in order, and the repository found
  -- `rows`.
  abbrev pub Found : List AggRestaurantDay → W → Type 0
  Found rows w' =
      ((c : Claims) × (ctx ≡ some c) × ((c.role ≡ "system_admin") ⊎ (c.restaurant_id ≡ some id)))
      × ((f : Date) × (t : Date) × (parse_date from ≡ ok f)
          × (parse_date to ≡ ok t)
          × (lex_leb (codes from) (codes to) ≡ true))
      × (s.restaurant_repo.find_by_restaurant_in_range id from to w ≡ (ok rows, w'))

  -- the body that the three queries share
  abbrev scan : {A : Type 0} → (AggRestaurantDay → A) → Exec W (List A)
  scan g = do
    require_restaurant s ctx id
    lift (validate_range from to)
    rows ← s.restaurant_repo.find_by_restaurant_in_range id from to
    pure (map g rows)

  scan_iff :
      {A : Type 0} (g : AggRestaurantDay → A) (answer : List A) (w' : W)
      → (scan g w ≡ (ok answer, w'))
        ↔ ((rows : List AggRestaurantDay) × Found rows w' × (answer ≡ map g rows))
  scan_iff {A} g answer w' = (answered, back)
    where
      find : Result (List AggRestaurantDay) × W
      find = s.restaurant_repo.find_by_restaurant_in_range id from to w

      failed : Err → W → Result (List A) × W
      failed e v = (err e, v)

      no_answer : {D : Type 0} (e : Err) (v : W) → failed e v ≡ (ok answer, w') → D
      no_answer e v given =
          let impossible : err e ≡ ok answer = ap (λ (x : Result (List A) × W). x.0) given in cc

      of_find :
          (r : Result (List AggRestaurantDay)) (v : W)
          → find ≡ (r, v)
          → can_access_restaurant ctx id ≡ true
          → validate_range from to ≡ ok tt
          → scan g w ≡ (ok answer, w')
          → (rows : List AggRestaurantDay) × Found rows w' × (answer ≡ map g rows)
      of_find (ok rows) v found allowed valid h =
          let given : (ok (map g rows), v) ≡ (ok answer, w') = rw (allowed, valid, found) at h in
          let first : ok (map g rows) ≡ ok answer = ap (λ (x : Result (List A) × W). x.0) given in
          let same : map g rows ≡ answer = cc in
          let same_world : v ≡ w' = ap (λ (x : Result (List A) × W). x.1) given in
          (
            rows,
            (
              (can_access_restaurant_iff ctx id).0 allowed,
              (validate_range_iff from to).0 valid,
              found ∙ ap (λ x. (ok rows, x)) same_world,
            ),
            sym same,
          )
      of_find (err e) v found allowed valid h =
          let given : (err e, v) ≡ (ok answer, w') = rw (allowed, valid, found) at h in
          no_answer e v given

      answered :
          scan g w ≡ (ok answer, w')
          → (rows : List AggRestaurantDay) × Found rows w' × (answer ≡ map g rows)
      answered h = elim (Bool-cases (can_access_restaurant ctx id)) [
        | inl allowed ↦ elim (Result-cases (validate_range from to)) [
          | inl (done, valid) ↦ of_find find.0 find.1 refl allowed valid h
          | inr (e, invalid) ↦
              let given : (err e, w) ≡ (ok answer, w') = rw (allowed, invalid) at h in
              no_answer e w given
        ]
        | inr denied ↦
            let given : (err (app err_tenant_mismatch), w) ≡ (ok answer, w') = rw denied at h in
            no_answer (app err_tenant_mismatch) w given
      ]

      back :
          (rows : List AggRestaurantDay) × Found rows w' × (answer ≡ map g rows)
          → scan g w ≡ (ok answer, w')
      back (rows, (tenant, range, found), same) =
          rw
            (
              (can_access_restaurant_iff ctx id).1 tenant,
              (validate_range_iff from to).1 range,
              found,
            )
            (ap (λ a. (ok a, w')) (sym same))

  -- The three queries on the days of a restaurant answer with rows exactly if the caller is a system
  -- administrator or has that restaurant, the two dates are real and in order, and the repository
  -- found stored rows for the restaurant and the dates. They answer one row for each stored row, in
  -- their order, whose columns are those of the stored row with its average order, its share of
  -- rejections, and its average delivery.
  pub restaurant_queries_iff :
      {F : Type 0} (fl : Float64 F) (days : List RestaurantDayRow) (failures : List (FailureRow F))
      (averages : List DeliveryAvgRow) (w' : W)
      → ((query_restaurant_days s ctx (record { restaurant_id = id; from = from; to = to }) w
            ≡ (ok days, w'))
          ↔ ((rows : List AggRestaurantDay) × Found rows w' × (days ≡ map day_of rows)))
        × ((query_failures s ctx fl (record { restaurant_id = id; from = from; to = to }) w
              ≡ (ok failures, w'))
            ↔ ((rows : List AggRestaurantDay) × Found rows w'
                × (failures ≡ map (failure_of fl) rows)))
        × ((query_delivery_avg s ctx (record { restaurant_id = id; from = from; to = to }) w
              ≡ (ok averages, w'))
            ↔ ((rows : List AggRestaurantDay) × Found rows w' × (averages ≡ map delivery_of rows)))
  unfolding query_restaurant_days query_failures query_delivery_avg restaurant_day_row failure_row
      failure_rate delivery_avg_row
  restaurant_queries_iff fl days failures averages w' = (
    scan_iff day_of days w',
    scan_iff (failure_of fl) failures w',
    scan_iff delivery_of averages w',
  )
