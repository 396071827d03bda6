-- ===== src/Repository/RestaurantDay.antt =====
-- app/analytics/repository/agg_restaurant_day.repo.go
use quickbite_analytics_serv.Base.{String, List, [], ◌∷◌}
use quickbite_analytics_serv.Base.Int.{ℤ, pos}
use quickbite_analytics_serv.Errors.{Result, ok, map_result}
use quickbite_analytics_serv.Errors
use quickbite_analytics_serv.Exec.{Exec, ◌>>=◌, lift}
use quickbite_analytics_serv.Mongo.{
  Mongo, str, int, time, Document, Filter, is, between, above, match, group, count, sort_descending,
  limit, sum, first,
}
use quickbite_analytics_serv.Repository.Entity.{AggRestaurantDay, decode_all, decode_restaurant_day}
use quickbite_analytics_serv.Repository.Indexes.{collection_agg_restaurant_day as collection}

-- The filter of the upserts: the unique key of a row.
abbrev pub restaurant_key : ℤ → String → Filter
restaurant_key restaurant_id date =
    ("restaurant_id", is (int restaurant_id)) ∷ ("date", is (str date)) ∷ []

-- `TopRestaurantsByRevenueRow`
pub record TopRestaurantsByRevenueRow : Type 0 where
  pub restaurant_id : ℤ
  pub revenue_sum : ℤ
  pub orders_count : ℤ
  pub currency : String

module _ {W : Type 0} (m : Mongo W) where
  unfoldable pub increment_order_row : ℤ → String → String → ℤ → Exec W (Unit {0})
  increment_order_row restaurant_id date currency revenue_minor w =
      m.update_one collection (restaurant_key restaurant_id date)
        (record {
          inc = ("orders_count", pos 1) ∷ ("revenue_sum", revenue_minor) ∷ [];
          set_on_insert = ("currency", str currency) ∷ [];
          set = ("updated_at", time (m.now w)) ∷ [];
        })
        w

  unfoldable pub increment_rejected_row : ℤ → String → String → Exec W (Unit {0})
  increment_rejected_row restaurant_id date currency w =
      m.update_one collection (restaurant_key restaurant_id date)
        (record {
          inc = ("rejected_count", pos 1) ∷ [];
          set_on_insert = ("currency", str currency) ∷ [];
          set = ("updated_at", time (m.now w)) ∷ [];
        })
        w

  unfoldable pub add_delivery : ℤ → String → String → ℤ → Exec W (Unit {0})
  add_delivery restaurant_id date currency delivery_ms w =
      m.update_one collection (restaurant_key restaurant_id date)
        (record {
          inc = ("delivery_ms_sum", delivery_ms) ∷ ("delivery_ms_count", pos 1) ∷ [];
          set_on_insert = ("currency", str currency) ∷ [];
          set = ("updated_at", time (m.now w)) ∷ [];
        })
        w

  -- `date` in [from, to], compared as texts.
  unfoldable pub find_by_restaurant_in_range : ℤ → String → String → Exec W (List AggRestaurantDay)
  find_by_restaurant_in_range restaurant_id from to = do
    found ←
        m.find collection
          (("restaurant_id", is (int restaurant_id)) ∷ ("date", between (str from) (str to)) ∷ [])
          ("date" ∷ [])
    lift (decode_all (decode_restaurant_day m) found)

  -- the decoding of the one document of the `$count` stage; no document counts 0
  abbrev counted : List Document → Result ℤ
  counted [] = ok (pos 0)
  counted (d ∷ _) = m.decode_int (d "n")

  unfoldable pub count_active_restaurants_in_range : String → String → Exec W ℤ
  count_active_restaurants_in_range from to = do
    found ← m.aggregate collection (
        match (("date", between (str from) (str to)) ∷ ("orders_count", above (int (pos 0))) ∷ [])
        ∷ group "restaurant_id" []
        ∷ count "n"
        ∷ [])
    lift (counted found)

  abbrev decode_top : Document → Result TopRestaurantsByRevenueRow
  decode_top d = Errors.◌>>=◌ (m.decode_int (d "_id")) λ restaurant_id.
      Errors.◌>>=◌ (m.decode_int (d "revenue_sum")) λ revenue_sum.
        Errors.◌>>=◌ (m.decode_int (d "orders_count")) λ orders_count.
          Errors.◌>>=◌ (m.decode_str (d "currency")) λ currency. ok (record {
            restaurant_id = restaurant_id;
            revenue_sum = revenue_sum;
            orders_count = orders_count;
            currency = currency;
          })

  unfoldable pub top_restaurants_by_revenue :
      String → String → ℤ → Exec W (List TopRestaurantsByRevenueRow)
  top_restaurants_by_revenue from to n = do
    found ← m.aggregate collection (
        match (("date", between (str from) (str to)) ∷ [])
        ∷ group "restaurant_id" (
            ("revenue_sum", sum "revenue_sum")
            ∷ ("orders_count", sum "orders_count")
            ∷ ("currency", first "currency")
            ∷ [])
        ∷ sort_descending "revenue_sum"
        ∷ limit n
        ∷ [])
    lift (decode_all decode_top found)
