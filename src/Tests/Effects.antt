-- ===== src/Tests/Effects.antt =====
-- Two events of one order over the database in memory, and an event that fails and comes again.
use mathlib.Core.List.{Permᴰ}
use quickbite_analytics_serv.Base.{suc, ◌==◌, ◌≡◌, refl, true, List, [], ◌∷◌, if◌then◌else◌}
use quickbite_analytics_serv.Base.Int.{pos, ◌+ℤ◌}
use quickbite_analytics_serv.Errors.{plain, Result, ok, err, is_permanent}
use quickbite_analytics_serv.Mongo.Rows.{orders_count, rejected_count}
use quickbite_analytics_serv.Repository.RestaurantDay
use quickbite_analytics_serv.Repository.BranchDay
use quickbite_analytics_serv.Repository.ProductDay
use quickbite_analytics_serv.Repository.PlatformDay
use quickbite_analytics_serv.Repository.Stores.{new_analytics_service}
use quickbite_analytics_serv.Repository.Counting.Upsert.{counted_in}
use quickbite_analytics_serv.Rows.{restaurant, total_for}
use quickbite_analytics_serv.Service.Writes.{on_order_placed, on_order_rejected}
use quickbite_analytics_serv.Events.Payloads.{Envelope}
use quickbite_analytics_serv.Events.Items.{to_item_inputs, merge_items, merge_item}
use quickbite_analytics_serv.Events.Handlers.{
  EventHandler, build, handle_order_placed, handle_order_rejected, validate_order_placed,
  validate_items, bad_rejected,
}
use quickbite_analytics_serv.Events.Consumer.{dispatch, settle}
use quickbite_analytics_serv.Events.Consumer.Laws.{KeepsMarks}
use quickbite_analytics_serv.Events.Consumer.Redelivery.{redelivered}
use quickbite_analytics_serv.Events.Effects.{event_service, handle_all}
use quickbite_analytics_serv.Events.Effects.AnyOrder.{
  effects, stored_events, stored_events-any_order,
}
use quickbite_analytics_serv.Tests.Memory.{World, empty, memory, memory_upserts}
use quickbite_analytics_serv.Tests.Data.{utc_date}
use quickbite_analytics_serv.Tests.Events.{
  Seen, start, deduper, deduper_laws, json, envelope, delivery, consumer, named,
}

abbrev rejected : Envelope (Unit {0})
rejected = record envelope { event_id = "evt-2"; event_type = "order.rejected" }

abbrev after : List (Envelope (Unit {0})) → World
after events =
    (handle_all json (event_service (new_analytics_service memory) utc_date) events empty).1

abbrev handled : List (Envelope (Unit {0})) → Result (Unit {0})
handled events =
    (handle_all json (event_service (new_analytics_service memory) utc_date) events empty).0

placed_first : handled (envelope ∷ rejected ∷ []) ≡ ok tt
unfolding handle_all build handle_order_placed handle_order_rejected validate_order_placed
    validate_items bad_rejected on_order_placed on_order_rejected RestaurantDay.increment_order_row
    BranchDay.increment_order_row ProductDay.bulk_increment_order_items
    PlatformDay.increment_order_row RestaurantDay.increment_rejected_row
    BranchDay.increment_rejected_row PlatformDay.increment_rejected_row to_item_inputs merge_items
    merge_item
placed_first = refl

rejected_first : handled (rejected ∷ envelope ∷ []) ≡ ok tt
unfolding handle_all build handle_order_placed handle_order_rejected validate_order_placed
    validate_items bad_rejected on_order_placed on_order_rejected RestaurantDay.increment_order_row
    BranchDay.increment_order_row ProductDay.bulk_increment_order_items
    PlatformDay.increment_order_row RestaurantDay.increment_rejected_row
    BranchDay.increment_rejected_row PlatformDay.increment_rejected_row to_item_inputs merge_items
    merge_item
rejected_first = refl

stored_events_example :
    counted_in memory memory_upserts
      (after (envelope ∷ rejected ∷ []))
      (restaurant (pos 7) (utc_date (pos 1000)))
      orders_count
    ≡ counted_in memory memory_upserts empty (restaurant (pos 7) (utc_date (pos 1000))) orders_count
      +ℤ total_for
          (restaurant (pos 7) (utc_date (pos 1000)))
          orders_count
          (effects memory memory_upserts utc_date json (envelope ∷ rejected ∷ []))
stored_events_example =
    stored_events memory memory_upserts utc_date json (envelope ∷ rejected ∷ []) empty placed_first
      (restaurant (pos 7) (utc_date (pos 1000))) orders_count

stored_events-any_order_example :
    counted_in memory memory_upserts
      (after (envelope ∷ rejected ∷ []))
      (restaurant (pos 7) (utc_date (pos 1000)))
      rejected_count
    ≡ counted_in memory memory_upserts
        (after (rejected ∷ envelope ∷ []))
        (restaurant (pos 7) (utc_date (pos 1000)))
        rejected_count
stored_events-any_order_example =
    stored_events-any_order memory memory_upserts utc_date json (envelope ∷ rejected ∷ [])
      (rejected ∷ envelope ∷ []) empty (Permᴰ.swap refl refl) placed_first rejected_first
      (restaurant (pos 7) (utc_date (pos 1000))) rejected_count

-- A handler that times out at its first event.
abbrev flaky : EventHandler Seen (Unit {0})
flaky env s =
    (if s.handled == 0 then err (plain "timeout") else ok tt, record s { handled = suc s.handled })

abbrev keeps_flaky : KeepsMarks (consumer flaky) deduper_laws flaky delivery
keeps_flaky = record {
  handler_keeps = λ env s j. refl;
  ack_keeps = λ s j. refl;
  nack_keeps = λ b s j. refl;
}

abbrev once : Seen
once = (dispatch (consumer flaky) delivery start).1

redelivered_example :
    dispatch (consumer flaky) delivery once
    ≡ settle
        (consumer flaky)
        delivery
        envelope
        (flaky envelope (deduper.mark_seen "evt-1" once).1).0
        (flaky envelope (deduper.mark_seen "evt-1" once).1).1
unfolding is_permanent dispatch
redelivered_example =
    redelivered (consumer flaky) deduper_laws delivery envelope flaky start (named flaky) refl refl
      (plain "timeout") delivery true keeps_flaky refl refl refl (named flaky) refl
