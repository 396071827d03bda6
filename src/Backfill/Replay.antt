-- ===== src/Backfill/Replay.antt =====
-- internal/backfill/backfill.go: `replayOne` and `ReplayWithDedupe`. The state is the statistics
-- beside the world; log lines are not modelled.
pub mod Laws
pub mod Again
use Prim.Native.String.{◌++◌}
use quickbite_analytics_serv.Base.{
  String, Bool, true, false, Option, none, some, List, map, if◌then◌else◌,
}
use quickbite_analytics_serv.Base.Int.{ℤ, pos}
use quickbite_analytics_serv.Base.Int64.{add64}
use quickbite_analytics_serv.Errors.{Err, wrap, Result, ok, err}
use quickbite_analytics_serv.Exec.{Exec, ◌>>◌, ◌>>=◌, pure}
use quickbite_analytics_serv.Mongo.Values.{Time}
use quickbite_analytics_serv.Types.{
  OrderItemInput, OnOrderPlacedInput, OnOrderRejectedInput, OnOrderDeliveredInput,
}
use quickbite_analytics_serv.Events.Consumer.{EventDeduper}
use quickbite_analytics_serv.Events.Handlers.{sub_time, milliseconds}
use quickbite_analytics_serv.Backfill.Rows.{Stats, OrderRow, ItemRow}

-- `aggregateWriter`
pub record AggregateWriter (W : Type 0) : Type 0 where
  pub on_order_placed : OnOrderPlacedInput → Exec W (Unit {0})
  pub on_order_rejected : OnOrderRejectedInput → Exec W (Unit {0})
  pub on_order_delivered : OnOrderDeliveredInput → Exec W (Unit {0})

abbrev pub count_scanned : Stats → Stats
count_scanned st = record st { scanned = add64 st.scanned (pos 1) }

abbrev pub count_replayed : Stats → Stats
count_replayed st = record st { replayed = add64 st.replayed (pos 1) }

abbrev pub count_skipped : Stats → Stats
count_skipped st = record st { skipped_dup = add64 st.skipped_dup (pos 1) }

abbrev pub count_failed : Stats → Stats
count_failed st = record st { failed = add64 st.failed (pos 1) }

-- `fmt.Sprintf("backfill:%s:%s:<kind>", o.region, o.publicID)`
unfoldable pub backfill_id : OrderRow → String → String
backfill_id o kind = "backfill:" ++ (o.region ++ (":" ++ (o.public_id ++ (":" ++ kind))))

unfoldable pub item_input : ItemRow → OrderItemInput
item_input it = record {
  product_id = it.product_id;
  quantity = it.quantity;
  line_total = it.line_total;
}

unfoldable pub placed_input : OrderRow → List ItemRow → OnOrderPlacedInput
unfolding item_input
placed_input o items = record {
  order_id = o.public_id;
  restaurant_id = o.restaurant_id;
  branch_id = o.branch_id;
  country_code = o.country_code;
  currency = o.currency;
  total = o.total;
  placed_at = o.created_at;
  items = map item_input items;
}

unfoldable pub rejected_input : OrderRow → Time → OnOrderRejectedInput
rejected_input o rejected_at = record {
  order_id = o.public_id;
  restaurant_id = o.restaurant_id;
  branch_id = o.branch_id;
  country_code = o.country_code;
  currency = o.currency;
  rejected_at = rejected_at;
}

unfoldable pub delivered_input : OrderRow → Time → OnOrderDeliveredInput
delivered_input o delivered_at = record {
  order_id = o.public_id;
  restaurant_id = o.restaurant_id;
  branch_id = o.branch_id;
  country_code = o.country_code;
  currency = o.currency;
  delivered_at = delivered_at;
  delivery_ms = milliseconds (sub_time delivered_at o.created_at);
}

module _ {W : Type 0} (dry_run : Bool) (deduper : EventDeduper W) where
  -- after a failed `apply`: the marker is given back, and the release may fail as well
  abbrev pub released : Err → Result (Unit {0}) → Err
  released e (ok _) = e
  released e (err release) = wrap "apply: %w; release dedupe marker: %v" e

  unfoldable pub after_apply : String → Result (Unit {0}) → Exec (Stats × W) (Unit {0})
  after_apply event_id (ok _) (st, w) = (ok tt, (count_replayed st, w))
  after_apply event_id (err e) (st, w) =
      let (release, w') = deduper.forget event_id w in (err (released e release), (st, w'))

  unfoldable pub after_mark : String → Exec W (Unit {0}) → Result Bool → Exec (Stats × W) (Unit {0})
  unfolding after_apply
  after_mark event_id apply (err e) (st, w) = (err (wrap "dedupe" e), (st, w))
  after_mark event_id apply (ok false) (st, w) = (ok tt, (count_skipped st, w))
  after_mark event_id apply (ok true) (st, w) =
      let (answer, w') = apply w in after_apply event_id answer (st, w')

  -- `ReplayWithDedupe`
  unfoldable pub replay_with_dedupe : String → Exec W (Unit {0}) → Exec (Stats × W) (Unit {0})
  unfolding after_mark
  replay_with_dedupe event_id apply (st, w) =
      if dry_run
      then (ok tt, (count_replayed st, w))
      else (let (fresh, w') = deduper.mark_seen event_id w in
          after_mark event_id apply fresh (st, w'))

  module _ (svc : AggregateWriter W) where
    abbrev pub replay_rejected : OrderRow → Option Time → Exec (Stats × W) (Unit {0})
    replay_rejected o none = pure tt
    replay_rejected o (some t) =
        replay_with_dedupe (backfill_id o "rejected") (svc.on_order_rejected (rejected_input o t))

    abbrev pub replay_delivered : OrderRow → Option Time → Exec (Stats × W) (Unit {0})
    replay_delivered o none = pure tt
    replay_delivered o (some t) =
        replay_with_dedupe (backfill_id o "delivered")
          (svc.on_order_delivered (delivered_input o t))

    -- `replayOne`
    unfoldable pub replay_one : OrderRow → List ItemRow → Exec (Stats × W) (Unit {0})
    unfolding replay_with_dedupe backfill_id placed_input rejected_input delivered_input
    replay_one o items = do
      replay_with_dedupe (backfill_id o "placed") (svc.on_order_placed (placed_input o items))
      replay_rejected o o.rejected_at
      replay_delivered o o.delivered_at
