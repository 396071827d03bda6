-- ===== src/Service/Writes.antt =====
-- The write side of app/analytics/service/analytics.service.go: one method per event. A failed
-- repository call returns at once, and what the calls before it wrote stays written.
use quickbite_analytics_serv.Base.{String, if◌then◌else◌}
use quickbite_analytics_serv.Base.Int.{ℤ, pos, ltb_ℤ}
use quickbite_analytics_serv.Exec.{Exec, ◌>>◌}
use quickbite_analytics_serv.Mongo.Values.{Time}
use quickbite_analytics_serv.Types.{
  OnOrderPlacedInput, OnOrderRejectedInput, OnOrderDeliveredInput, OnPaymentCompletedInput,
}
use quickbite_analytics_serv.Repository.Interfaces.{AnalyticsService}

-- A negative latency is clock skew, and counts as 0.
unfoldable pub clamp_delivery_ms : ℤ → ℤ
clamp_delivery_ms ms = if ltb_ℤ ms (pos 0) then pos 0 else ms

-- `utc_date` is `t.UTC().Format("2006-01-02")`.
module _ {W : Type 0} (s : AnalyticsService W) (utc_date : Time → String) where
  unfoldable pub on_order_placed : OnOrderPlacedInput → Exec W (Unit {0})
  on_order_placed i =
      let date = utc_date i.placed_at in
      do
        s.restaurant_repo.increment_order_row i.restaurant_id date i.currency i.total
        s.branch_repo.increment_order_row i.branch_id i.restaurant_id date i.currency i.total
        s.product_repo.bulk_increment_order_items i.restaurant_id date i.currency i.items
        s.platform_repo.increment_order_row date i.country_code i.currency i.total

  unfoldable pub on_order_rejected : OnOrderRejectedInput → Exec W (Unit {0})
  on_order_rejected i =
      let date = utc_date i.rejected_at in
      do
        s.restaurant_repo.increment_rejected_row i.restaurant_id date i.currency
        s.branch_repo.increment_rejected_row i.branch_id i.restaurant_id date i.currency
        s.platform_repo.increment_rejected_row date i.country_code i.currency

  unfoldable pub on_order_delivered : OnOrderDeliveredInput → Exec W (Unit {0})
  on_order_delivered i =
      let date = utc_date i.delivered_at in
      let ms = clamp_delivery_ms i.delivery_ms in
      do
        s.restaurant_repo.add_delivery i.restaurant_id date i.currency ms
        s.branch_repo.add_delivery i.branch_id i.restaurant_id date i.currency ms
        s.platform_repo.add_delivery date i.country_code i.currency ms

  unfoldable pub on_payment_completed : OnPaymentCompletedInput → Exec W (Unit {0})
  on_payment_completed i =
      let date = utc_date i.completed_at in
      do
        s.restaurant_repo.increment_order_row i.restaurant_id date i.currency i.total
        s.branch_repo.increment_order_row i.branch_id i.restaurant_id date i.currency i.total
        s.product_repo.bulk_increment_order_items i.restaurant_id date i.currency i.items
        s.platform_repo.increment_order_row date i.country_code i.currency i.total
