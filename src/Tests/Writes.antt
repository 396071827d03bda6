-- ===== src/Tests/Writes.antt =====
-- The write side at one order.
use quickbite_analytics_serv.Base.{◌≡◌, refl}
use quickbite_analytics_serv.Base.Int.{pos, ◌+ℤ◌}
use quickbite_analytics_serv.Mongo.Rows.{revenue_sum, rejected_count, delivery_ms_count}
use quickbite_analytics_serv.Repository.RestaurantDay
use quickbite_analytics_serv.Repository.BranchDay
use quickbite_analytics_serv.Repository.ProductDay
use quickbite_analytics_serv.Repository.PlatformDay
use quickbite_analytics_serv.Repository.Stores.{new_analytics_service}
use quickbite_analytics_serv.Repository.Counting.Upsert.{counted_in}
use quickbite_analytics_serv.Rows.{restaurant, total_for}
use quickbite_analytics_serv.Rows.Changes.{sale_changes, rejection_changes, delivery_changes}
use quickbite_analytics_serv.Service.Writes.{
  clamp_delivery_ms, on_order_placed, on_order_rejected, on_order_delivered,
}
use quickbite_analytics_serv.Service.Stored.{
  stored_order_placed, stored_order_rejected, stored_order_delivered,
}
use quickbite_analytics_serv.Tests.Memory.{empty, memory, memory_upserts}
use quickbite_analytics_serv.Tests.Data.{utc_date, order, rejection, skewed_delivery}

stored_order_placed_example :
    counted_in memory memory_upserts
      (on_order_placed (new_analytics_service memory) utc_date order empty).1
      (restaurant (pos 7) "2026-05-21")
      revenue_sum
    ≡ counted_in memory memory_upserts empty (restaurant (pos 7) "2026-05-21") revenue_sum
      +ℤ total_for
          (restaurant (pos 7) "2026-05-21")
          revenue_sum
          (sale_changes (pos 7) (pos 70) "2026-05-21" "EG" "EGP" (pos 2500) order.items)
unfolding on_order_placed RestaurantDay.increment_order_row BranchDay.increment_order_row
    ProductDay.bulk_increment_order_items PlatformDay.increment_order_row
stored_order_placed_example =
    stored_order_placed memory memory_upserts utc_date order refl empty refl
      (restaurant (pos 7) "2026-05-21") revenue_sum

stored_order_rejected_example :
    counted_in memory memory_upserts
      (on_order_rejected (new_analytics_service memory) utc_date rejection empty).1
      (restaurant (pos 7) "2026-05-21")
      rejected_count
    ≡ counted_in memory memory_upserts empty (restaurant (pos 7) "2026-05-21") rejected_count
      +ℤ total_for
          (restaurant (pos 7) "2026-05-21")
          rejected_count
          (rejection_changes (pos 7) (pos 70) "2026-05-21" "EG" "EGP")
unfolding on_order_rejected RestaurantDay.increment_rejected_row BranchDay.increment_rejected_row
    PlatformDay.increment_rejected_row
stored_order_rejected_example =
    stored_order_rejected memory memory_upserts utc_date rejection empty refl
      (restaurant (pos 7) "2026-05-21") rejected_count

stored_order_delivered_example :
    counted_in memory memory_upserts
      (on_order_delivered (new_analytics_service memory) utc_date skewed_delivery empty).1
      (restaurant (pos 7) "2026-05-21")
      delivery_ms_count
    ≡ counted_in memory memory_upserts empty (restaurant (pos 7) "2026-05-21") delivery_ms_count
      +ℤ total_for
          (restaurant (pos 7) "2026-05-21")
          delivery_ms_count
          (delivery_changes (pos 7) (pos 70) "2026-05-21" "EG" "EGP" (pos 0))
unfolding on_order_delivered clamp_delivery_ms RestaurantDay.add_delivery BranchDay.add_delivery
    PlatformDay.add_delivery
stored_order_delivered_example =
    stored_order_delivered memory memory_upserts utc_date skewed_delivery empty refl
      (restaurant (pos 7) "2026-05-21") delivery_ms_count
