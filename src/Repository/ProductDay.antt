-- ===== src/Repository/ProductDay.antt =====
-- app/analytics/repository/agg_product_day.repo.go
use quickbite_analytics_serv.Base.{String, List, [], ◌∷◌}
use quickbite_analytics_serv.Base.Int.{ℤ, pos}
use quickbite_analytics_serv.Errors.{ok}
use quickbite_analytics_serv.Exec.{Exec, ◌>>=◌, lift}
use quickbite_analytics_serv.Mongo.{Mongo, str, int, time, Time, Filter, Update, is, between}
use quickbite_analytics_serv.Types.{OrderItemInput}
use quickbite_analytics_serv.Repository.Entity.{AggProductDay, decode_all, decode_product_day}
use quickbite_analytics_serv.Repository.Indexes.{collection_agg_product_day as collection}

abbrev pub product_key : ℤ → ℤ → String → Filter
product_key restaurant_id product_id date =
    ("restaurant_id", is (int restaurant_id))
    ∷ ("product_id", is (int product_id))
    ∷ ("date", is (str date))
    ∷ []

-- The update of one line of an order.
abbrev pub item_update : String → Time → OrderItemInput → Update
item_update currency now it = record {
  inc = ("orders_count", pos 1) ∷ ("units_sold", it.quantity) ∷ ("revenue_sum", it.line_total) ∷ [];
  set_on_insert = ("currency", str currency) ∷ [];
  set = ("updated_at", time now) ∷ [];
}

-- The loop that builds the write models.
abbrev pub item_models : ℤ → String → String → Time → List OrderItemInput → List (Filter × Update)
item_models restaurant_id date currency now [] = []
item_models restaurant_id date currency now (it ∷ items) =
    (product_key restaurant_id it.product_id date, item_update currency now it)
    ∷ item_models restaurant_id date currency now items

module _ {W : Type 0} (m : Mongo W) where
  -- No items make no call.
  unfoldable pub bulk_increment_order_items :
      ℤ → String → String → List OrderItemInput → Exec W (Unit {0})
  bulk_increment_order_items restaurant_id date currency [] w = (ok tt, w)
  bulk_increment_order_items restaurant_id date currency (it ∷ items) w =
      m.bulk_write collection (item_models restaurant_id date currency (m.now w) (it ∷ items)) w

  unfoldable pub find_by_product_in_range : ℤ → String → String → Exec W (List AggProductDay)
  find_by_product_in_range product_id from to = do
    found ←
        m.find collection
          (("product_id", is (int product_id)) ∷ ("date", between (str from) (str to)) ∷ [])
          ("date" ∷ [])
    lift (decode_all (decode_product_day m) found)
