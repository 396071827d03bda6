-- ===== src/Service/WriteEffects.antt =====
-- The write side of app/analytics/service/analytics.service.go in the abstract rows, from the laws of
-- the repositories.
use quickbite_analytics_serv.Base.{String, ◌≡◌, sym, true, arith, List, ◌++◌}
use quickbite_analytics_serv.Base.Int.{ℤ, pos, negsuc, +ℤ_assoc}
use quickbite_analytics_serv.Exec.{Exec, ◌>>◌, continue-eq-ok}
use quickbite_analytics_serv.Mongo.Values.{Time}
use quickbite_analytics_serv.Mongo.Rows.{Counter}
use quickbite_analytics_serv.Types.{
  OnOrderPlacedInput, OnOrderRejectedInput, OnOrderDeliveredInput, OnPaymentCompletedInput,
}
use quickbite_analytics_serv.Repository.Interfaces.{
  AnalyticsService, RepositoryLaws, Adds, distinct_products,
}
use quickbite_analytics_serv.Rows.{Row, Change, total_for-append}
use quickbite_analytics_serv.Rows.Changes.{
  sale_changes, rejection_changes, delivery_changes, at_least_zero,
}
use quickbite_analytics_serv.Service.Writes.{
  clamp_delivery_ms, on_order_placed, on_order_rejected, on_order_delivered, on_payment_completed,
}

-- Two writes in a row add what the first and then what the second adds.
pub Adds-then :
    {W : Type 0} (counted : W → Row → Counter → ℤ) (m n : Exec W (Unit {0})) (xs ys : List Change)
    → Adds counted m xs
    → Adds counted n ys
    → Adds counted (m >> n) (xs ++ ys)
Adds-then counted m n xs ys hm hn w done r k =
    let (_, same, second, first) = continue-eq-ok (m w).0 (λ _. n) (m w).1 done in
    rw (same, total_for-append r k xs ys)
      (rw (hn (m w).1 second r k) (rw (hm w first r k) (+ℤ_assoc _ _ _)))

module _ {W : Type 0} (s : AnalyticsService W) (laws : RepositoryLaws s)
    (utc_date : Time → String) where
  -- A placed order whose items are of distinct products, once it is accepted, has added one order
  -- and its total to its restaurant's, branch's and region's rows of the UTC day, and each item
  -- to its product's row; no other counter of any row has changed.
  pub on_order_placed-Adds :
      (i : OnOrderPlacedInput)
      → distinct_products i.items ≡ true
      → Adds laws.counted (on_order_placed s utc_date i) (
          sale_changes i.restaurant_id i.branch_id
            (utc_date i.placed_at)
            i.country_code
            i.currency
            i.total
            i.items)
  unfolding on_order_placed
  on_order_placed-Adds i h = Adds-then laws.counted _ _ _ _ (laws.restaurant_order _ _ _ _) (
      Adds-then laws.counted _ _ _ _ (laws.branch_order _ _ _ _ _) (
        Adds-then laws.counted _ _ _ _ (laws.product_items _ _ _ _ h)
          (laws.platform_order _ _ _ _)))

  -- A completed payment adds the same changes as a placed order, on the UTC day of its completion.
  pub on_payment_completed-Adds :
      (i : OnPaymentCompletedInput)
      → distinct_products i.items ≡ true
      → Adds laws.counted (on_payment_completed s utc_date i) (
          sale_changes i.restaurant_id i.branch_id
            (utc_date i.completed_at)
            i.country_code
            i.currency
            i.total
            i.items)
  unfolding on_payment_completed
  on_payment_completed-Adds i h = Adds-then laws.counted _ _ _ _ (laws.restaurant_order _ _ _ _) (
      Adds-then laws.counted _ _ _ _ (laws.branch_order _ _ _ _ _) (
        Adds-then laws.counted _ _ _ _ (laws.product_items _ _ _ _ h)
          (laws.platform_order _ _ _ _)))

  -- A rejected order adds one to the rejected counter of its restaurant's, branch's and region's
  -- rows, and changes no other counter: order counts, revenue and products stay.
  pub on_order_rejected-Adds :
      (i : OnOrderRejectedInput)
      → Adds laws.counted (on_order_rejected s utc_date i) (
          rejection_changes i.restaurant_id i.branch_id
            (utc_date i.rejected_at)
            i.country_code
            i.currency)
  unfolding on_order_rejected
  on_order_rejected-Adds i =
      Adds-then laws.counted _ _ _ _ (laws.restaurant_rejected _ _ _) (
        Adds-then laws.counted _ _ _ _ (laws.branch_rejected _ _ _ _)
          (laws.platform_rejected _ _ _))

  clamp_delivery_ms-eq : (ms : ℤ) → clamp_delivery_ms ms ≡ at_least_zero ms
  unfolding clamp_delivery_ms
  clamp_delivery_ms-eq (pos n) = ground arith
  clamp_delivery_ms-eq (negsuc n) = ground arith

  -- A delivery adds its latency, or 0 where that is negative, and one delivery to its
  -- restaurant's, branch's and region's rows, and changes no other counter.
  pub on_order_delivered-Adds :
      (i : OnOrderDeliveredInput)
      → Adds laws.counted (on_order_delivered s utc_date i) (
          delivery_changes i.restaurant_id i.branch_id
            (utc_date i.delivered_at)
            i.country_code
            i.currency
            (at_least_zero i.delivery_ms))
  unfolding on_order_delivered
  on_order_delivered-Adds i = rw (sym (clamp_delivery_ms-eq i.delivery_ms)) (
      Adds-then laws.counted _ _ _ _ (laws.restaurant_delivery _ _ _ _) (
        Adds-then laws.counted _ _ _ _ (laws.branch_delivery _ _ _ _ _)
          (laws.platform_delivery _ _ _ _)))
