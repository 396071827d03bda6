-- ===== src/Repository/BranchDay.antt =====
-- app/analytics/repository/agg_branch_day.repo.go
use quickbite_analytics_serv.Base.{String, Option, none, some, List, [], ◌∷◌}
use quickbite_analytics_serv.Base.Int.{ℤ, pos}
use quickbite_analytics_serv.Errors.{Result, ok}
use quickbite_analytics_serv.Exec.{Exec, ◌>>=◌, lift}
use quickbite_analytics_serv.Mongo.{Mongo, str, int, time, Document, Filter, is, between}
use quickbite_analytics_serv.Repository.Entity.{AggBranchDay, decode_all, decode_branch_day}
use quickbite_analytics_serv.Repository.Indexes.{collection_agg_branch_day as collection}

abbrev pub branch_key : ℤ → String → Filter
branch_key branch_id date = ("branch_id", is (int branch_id)) ∷ ("date", is (str date)) ∷ []

module _ {W : Type 0} (m : Mongo W) where
  unfoldable pub increment_order_row : ℤ → ℤ → String → String → ℤ → Exec W (Unit {0})
  increment_order_row branch_id restaurant_id date currency revenue_minor w =
      m.update_one collection (branch_key branch_id date)
        (record {
          inc = ("orders_count", pos 1) ∷ ("revenue_sum", revenue_minor) ∷ [];
          set_on_insert = ("currency", str currency) ∷ ("restaurant_id", int restaurant_id) ∷ [];
          set = ("updated_at", time (m.now w)) ∷ [];
        })
        w

  unfoldable pub increment_rejected_row : ℤ → ℤ → String → String → Exec W (Unit {0})
  increment_rejected_row branch_id restaurant_id date currency w =
      m.update_one collection (branch_key branch_id date)
        (record {
          inc = ("rejected_count", pos 1) ∷ [];
          set_on_insert = ("currency", str currency) ∷ ("restaurant_id", int restaurant_id) ∷ [];
          set = ("updated_at", time (m.now w)) ∷ [];
        })
        w

  unfoldable pub add_delivery : ℤ → ℤ → String → String → ℤ → Exec W (Unit {0})
  add_delivery branch_id restaurant_id date currency delivery_ms w =
      m.update_one collection (branch_key branch_id date)
        (record {
          inc = ("delivery_ms_sum", delivery_ms) ∷ ("delivery_ms_count", pos 1) ∷ [];
          set_on_insert = ("currency", str currency) ∷ ("restaurant_id", int restaurant_id) ∷ [];
          set = ("updated_at", time (m.now w)) ∷ [];
        })
        w

  -- No row answers (0, nil). The projection to `restaurant_id` leaves the other fields unread.
  abbrev restaurant_of : Option Document → Result ℤ
  restaurant_of none = ok (pos 0)
  restaurant_of (some d) = m.decode_int (d "restaurant_id")

  unfoldable pub find_restaurant_of_branch : ℤ → Exec W ℤ
  find_restaurant_of_branch branch_id = do
    found ← m.find_one collection (("branch_id", is (int branch_id)) ∷ [])
    lift (restaurant_of found)

  unfoldable pub find_by_branch_in_range : ℤ → String → String → Exec W (List AggBranchDay)
  find_by_branch_in_range branch_id from to = do
    found ←
        m.find collection
          (("branch_id", is (int branch_id)) ∷ ("date", between (str from) (str to)) ∷ [])
          ("date" ∷ [])
    lift (decode_all (decode_branch_day m) found)
