-- ===== src/Repository/PlatformDay.antt =====
-- app/analytics/repository/agg_platform_day.repo.go
use quickbite_analytics_serv.Base.{String, List, [], ◌∷◌}
use quickbite_analytics_serv.Base.Int.{ℤ, pos}
use quickbite_analytics_serv.Exec.{Exec, ◌>>=◌, lift}
use quickbite_analytics_serv.Mongo.{Mongo, str, time, Filter, is, between}
use quickbite_analytics_serv.Repository.Entity.{AggPlatformDay, decode_all, decode_platform_day}
use quickbite_analytics_serv.Repository.Indexes.{collection_agg_platform_day as collection}

abbrev pub platform_key : String → String → String → Filter
platform_key date country_code currency =
    ("date", is (str date))
    ∷ ("country_code", is (str country_code))
    ∷ ("currency", is (str currency))
    ∷ []

module _ {W : Type 0} (m : Mongo W) where
  unfoldable pub increment_order_row : String → String → String → ℤ → Exec W (Unit {0})
  increment_order_row date country_code currency revenue_minor w =
      m.update_one collection (platform_key date country_code currency)
        (record {
          inc = ("orders_count", pos 1) ∷ ("revenue_sum", revenue_minor) ∷ [];
          set_on_insert = ("country_code", str country_code) ∷ ("currency", str currency) ∷ [];
          set = ("updated_at", time (m.now w)) ∷ [];
        })
        w

  unfoldable pub increment_rejected_row : String → String → String → Exec W (Unit {0})
  increment_rejected_row date country_code currency w =
      m.update_one collection (platform_key date country_code currency)
        (record {
          inc = ("rejected_count", pos 1) ∷ [];
          set_on_insert = ("country_code", str country_code) ∷ ("currency", str currency) ∷ [];
          set = ("updated_at", time (m.now w)) ∷ [];
        })
        w

  unfoldable pub add_delivery : String → String → String → ℤ → Exec W (Unit {0})
  add_delivery date country_code currency delivery_ms w =
      m.update_one collection (platform_key date country_code currency)
        (record {
          inc = ("delivery_ms_sum", delivery_ms) ∷ ("delivery_ms_count", pos 1) ∷ [];
          set_on_insert = ("country_code", str country_code) ∷ ("currency", str currency) ∷ [];
          set = ("updated_at", time (m.now w)) ∷ [];
        })
        w

  unfoldable pub find_in_range : String → String → Exec W (List AggPlatformDay)
  find_in_range from to = do
    found ←
        m.find collection (("date", between (str from) (str to)) ∷ [])
          ("date" ∷ "country_code" ∷ "currency" ∷ [])
    lift (decode_all (decode_platform_day m) found)
