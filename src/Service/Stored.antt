-- ===== src/Service/Stored.antt =====
-- The write side of the service over MongoDB: the methods of app/analytics/service on the
-- repositories of app/analytics/repository.
use quickbite_analytics_serv.Base.{String, ◌≡◌, true}
use quickbite_analytics_serv.Base.Int.{◌+ℤ◌}
use quickbite_analytics_serv.Errors.{ok}
use quickbite_analytics_serv.Mongo.{Mongo}
use quickbite_analytics_serv.Mongo.Values.{Time}
use quickbite_analytics_serv.Mongo.Rows.{Counter}
use quickbite_analytics_serv.Mongo.Laws.{UpsertLaws}
use quickbite_analytics_serv.Types.{OnOrderPlacedInput, OnOrderRejectedInput, OnOrderDeliveredInput}
use quickbite_analytics_serv.Repository.Indexes.{all_indexes}
use quickbite_analytics_serv.Repository.Interfaces.{distinct_products}
use quickbite_analytics_serv.Repository.Stores.{new_analytics_service}
use quickbite_analytics_serv.Repository.Counting.{mongo_laws}
use quickbite_analytics_serv.Repository.Counting.Upsert.{counted_in}
use quickbite_analytics_serv.Rows.{Row, total_for}
use quickbite_analytics_serv.Rows.Changes.{
  sale_changes, rejection_changes, delivery_changes, at_least_zero,
}
use quickbite_analytics_serv.Service.Writes.{on_order_placed, on_order_rejected, on_order_delivered}
use quickbite_analytics_serv.Service.WriteEffects.{
  on_order_placed-Adds, on_order_rejected-Adds, on_order_delivered-Adds,
}

module _ {W : Type 0} (m : Mongo W) (laws : UpsertLaws m all_indexes)
    (utc_date : Time → String) where
  -- Over a MongoDB that keeps the laws of upserts under the service's indexes, an accepted order of
  -- distinct products adds to the stored documents exactly what the abstract rows say: one order
  -- and its total on its restaurant's, branch's and region's rows of the day, and each item on its
  -- product's row. No other counter of any row changes.
  pub stored_order_placed :
      (i : OnOrderPlacedInput)
      → distinct_products i.items ≡ true
      → (w : W) → (on_order_placed (new_analytics_service m) utc_date i w).0 ≡ ok tt
      → (r : Row) (k : Counter)
      → counted_in m laws (on_order_placed (new_analytics_service m) utc_date i w).1 r k
        ≡ counted_in m laws w r k
          +ℤ total_for r k (
              sale_changes i.restaurant_id i.branch_id
                (utc_date i.placed_at)
                i.country_code
                i.currency
                i.total
                i.items)
  unfolding mongo_laws
  stored_order_placed = on_order_placed-Adds (new_analytics_service m) (mongo_laws m laws) utc_date

  -- An accepted rejection adds one to the rejected counter of the stored rows of its restaurant,
  -- branch and region, and changes no other counter of any row.
  pub stored_order_rejected :
      (i : OnOrderRejectedInput) (w : W)
      → (on_order_rejected (new_analytics_service m) utc_date i w).0 ≡ ok tt
      → (r : Row) (k : Counter)
      → counted_in m laws (on_order_rejected (new_analytics_service m) utc_date i w).1 r k
        ≡ counted_in m laws w r k
          +ℤ total_for r k (
              rejection_changes i.restaurant_id i.branch_id
                (utc_date i.rejected_at)
                i.country_code
                i.currency)
  unfolding mongo_laws
  stored_order_rejected =
      on_order_rejected-Adds (new_analytics_service m) (mongo_laws m laws) utc_date

  -- An accepted delivery adds its latency, 0 where that is negative, and one delivery to the stored
  -- rows of its restaurant, branch and region, and changes no other counter of any row.
  pub stored_order_delivered :
      (i : OnOrderDeliveredInput) (w : W)
      → (on_order_delivered (new_analytics_service m) utc_date i w).0 ≡ ok tt
      → (r : Row) (k : Counter)
      → counted_in m laws (on_order_delivered (new_analytics_service m) utc_date i w).1 r k
        ≡ counted_in m laws w r k
          +ℤ total_for r k (
              delivery_changes i.restaurant_id i.branch_id
                (utc_date i.delivered_at)
                i.country_code
                i.currency
                (at_least_zero i.delivery_ms))
  unfolding mongo_laws
  stored_order_delivered =
      on_order_delivered-Adds (new_analytics_service m) (mongo_laws m laws) utc_date
