-- ===== src/Tests/Queries.antt =====
-- The read side at concrete callers and ranges.
use quickbite_analytics_serv.Base.{
  ℕ, ◌≡◌, map, List, true, ◌↔◌, ◌⊎◌, ◌≤◌, ◌<◌, ◌*◌, ◌+◌, some, [], ◌∷◌, arith,
}
use quickbite_analytics_serv.Base.Int.{ℤ, pos, negsuc}
use quickbite_analytics_serv.Base.Text.{codes, lex_leb}
use quickbite_analytics_serv.Errors.{ok}
use quickbite_analytics_serv.Repository.Entity.{AggRestaurantDay}
use quickbite_analytics_serv.Repository.Interfaces.{AnalyticsService}
use quickbite_analytics_serv.Repository.Stores.{new_analytics_service}
use quickbite_analytics_serv.Rbac.Claims.{Claims}
use quickbite_analytics_serv.Service.Access.{can_access_restaurant}
use quickbite_analytics_serv.Service.Access.Laws.{can_access_restaurant_iff}
use quickbite_analytics_serv.Service.Dates.{Date, parse_date, validate_range}
use quickbite_analytics_serv.Service.Dates.Order.{validate_range_iff}
use quickbite_analytics_serv.Service.Queries.{
  Float64, safe_avg, query_restaurant_days, query_failures, query_delivery_avg,
}
use quickbite_analytics_serv.Service.Queries.Laws.{safe_avg_truncates, with_sign}
use quickbite_analytics_serv.Service.Queries.Restaurant.{
  Found, day_of, failure_of, delivery_of, restaurant_queries_iff,
}
use quickbite_analytics_serv.Tests.Memory.{World, empty, memory}

abbrev pub owner : Claims
owner = record {
  user_id = pos 5;
  email = "owner@example.com";
  role = "restaurant_user";
  restaurant_id = some (pos 7);
  restaurant_role = some "owner";
  branch_ids = [];
}

abbrev manager : Claims
manager = record {
  user_id = pos 6;
  email = "manager@example.com";
  role = "restaurant_user";
  restaurant_id = some (pos 7);
  restaurant_role = some "branch_manager";
  branch_ids = pos 70 ∷ [];
}

-- rates to the nearest lower integer
abbrev pub whole : Float64 ℤ
whole = record { zero = pos 0; of_int64 = λ n. n; divide = λ a b. safe_avg a b }

can_access_restaurant_iff_example : (can_access_restaurant (some owner) (pos 7) ≡ true) ↔ (
    (c : Claims) × (some owner ≡ some c)
    × ((c.role ≡ "system_admin") ⊎ (c.restaurant_id ≡ some (pos 7))))
can_access_restaurant_iff_example = can_access_restaurant_iff (some owner) (pos 7)

validate_range_iff_example : (validate_range "2026-05-21" "2026-06-01" ≡ ok tt) ↔ (
    (f : Date) × (t : Date) × (parse_date "2026-05-21" ≡ ok f)
    × (parse_date "2026-06-01" ≡ ok t)
    × (lex_leb (codes "2026-05-21") (codes "2026-06-01") ≡ true))
validate_range_iff_example = validate_range_iff "2026-05-21" "2026-06-01"

safe_avg_truncates_example :
    (safe_avg (negsuc 2500) (pos 0) ≡ pos 0)
    × (q : ℕ) × (safe_avg (negsuc 2500) (pos 2) ≡ with_sign (negsuc 2500) q)
    × (q * 2 ≤ 2501)
    × (2501 < (q + 1) * 2)
safe_avg_truncates_example = safe_avg_truncates (negsuc 2500) 2 (omega arith)

-- a restaurant with one day of two orders, one of them rejected
abbrev day : AggRestaurantDay
day = record {
  restaurant_id = pos 7;
  date = "2026-05-21";
  currency = "EGP";
  orders_count = pos 2;
  revenue_sum = pos 2501;
  rejected_count = pos 1;
  delivery_ms_sum = pos 1800000;
  delivery_ms_count = pos 1;
  updated_at = pos 1000;
}

abbrev stocked : AnalyticsService World
stocked = record (new_analytics_service memory) {
  restaurant_repo = record (new_analytics_service memory).restaurant_repo {
    find_by_restaurant_in_range = λ id from to w. (ok (day ∷ []), w);
  };
}

restaurant_queries_iff_example :
    ((query_restaurant_days stocked
          (some owner)
          (record { restaurant_id = pos 7; from = "2026-05-21"; to = "2026-06-01" })
          empty
        ≡ (ok (day_of day ∷ []), empty))
      ↔ ((rows : List AggRestaurantDay) × Found stocked
            (some owner)
            (pos 7)
            "2026-05-21"
            "2026-06-01"
            empty
            rows
            empty
          × (day_of day ∷ [] ≡ map day_of rows)))
    × ((query_failures stocked
            (some owner)
            whole
            (record { restaurant_id = pos 7; from = "2026-05-21"; to = "2026-06-01" })
            empty
          ≡ (ok (failure_of whole day ∷ []), empty))
        ↔ ((rows : List AggRestaurantDay) × Found stocked
              (some owner)
              (pos 7)
              "2026-05-21"
              "2026-06-01"
              empty
              rows
              empty
            × (failure_of whole day ∷ [] ≡ map (failure_of whole) rows)))
    × ((query_delivery_avg stocked
            (some owner)
            (record { restaurant_id = pos 7; from = "2026-05-21"; to = "2026-06-01" })
            empty
          ≡ (ok (delivery_of day ∷ []), empty))
        ↔ ((rows : List AggRestaurantDay) × Found stocked
              (some owner)
              (pos 7)
              "2026-05-21"
              "2026-06-01"
              empty
              rows
              empty
            × (delivery_of day ∷ [] ≡ map delivery_of rows)))
restaurant_queries_iff_example =
    restaurant_queries_iff stocked (some owner) (pos 7) "2026-05-21" "2026-06-01" empty whole
      (day_of day ∷ []) (failure_of whole day ∷ []) (delivery_of day ∷ []) empty
