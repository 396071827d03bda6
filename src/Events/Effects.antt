-- ===== src/Events/Effects.antt =====
-- What the events that app/analytics/eventhandlers/handlers.go handles do to the abstract rows, read
-- off their payloads.
pub mod Laws
pub mod AnyOrder
use quickbite_analytics_serv.Base.{String, Option, none, some, List, [], ◌∷◌, str_eq, if◌then◌else◌}
use quickbite_analytics_serv.Base.Int.{ℤ}
use quickbite_analytics_serv.Errors.{Result, ok, err}
use quickbite_analytics_serv.Exec.{Exec, ◌>>◌, pure}
use quickbite_analytics_serv.Mongo.Values.{Time}
use quickbite_analytics_serv.Mongo.Rows.{assoc}
use quickbite_analytics_serv.Repository.Interfaces.{AnalyticsService}
use quickbite_analytics_serv.Rows.{Change}
use quickbite_analytics_serv.Rows.Changes.{
  sale_changes, rejection_changes, delivery_changes, at_least_zero,
}
use quickbite_analytics_serv.Service.Writes.{
  on_order_placed, on_order_rejected, on_order_delivered, on_payment_completed,
}
use quickbite_analytics_serv.Events.Items.{to_item_inputs}
use quickbite_analytics_serv.Events.Payloads.{
  Envelope, OrderPlacedPayload, OrderRejectedPayload, OrderDeliveredPayload,
  PaymentCompletedPayload, Decoders, EventService,
}
use quickbite_analytics_serv.Events.Handlers.{
  EventHandler, country_code_or_region, sub_time, milliseconds, build,
}

-- `AnalyticsService` as the `EventService` of the handlers
abbrev pub event_service : {W : Type 0} → AnalyticsService W → (Time → String) → EventService W
event_service s utc_date = record {
  on_order_placed = on_order_placed s utc_date;
  on_order_rejected = on_order_rejected s utc_date;
  on_order_delivered = on_order_delivered s utc_date;
  on_payment_completed = on_payment_completed s utc_date;
}

-- What a readable payload adds; an unreadable one adds nothing.
abbrev pub changes_of : {A : Type 0} → Result A → (A → List Change) → List Change
changes_of (ok a) f = f a
changes_of (err e) f = []

module _ {R : Type 0} (json : Decoders R) (utc_date : Time → String) where
  -- one order on the rows of its restaurant, branch and region, and its merged lines on the rows of
  -- their products, on the UTC day of the time in the payload
  abbrev pub placed_changes : R → List Change
  placed_changes raw = changes_of (json.order_placed raw) λ p.
      changes_of (json.parse_rfc3339 p.placed_at) λ at.
        sale_changes p.restaurant_id p.branch_id (utc_date at) p.country_code p.currency p.total
          (to_item_inputs p.items)

  abbrev pub payment_changes : R → List Change
  payment_changes raw = changes_of (json.payment_completed raw) λ p.
      changes_of (json.parse_rfc3339 p.completed_at) λ at.
        sale_changes p.restaurant_id p.branch_id (utc_date at)
          (country_code_or_region p.country_code p.region) p.currency p.total
          (to_item_inputs p.items)

  abbrev pub rejected_changes : R → List Change
  rejected_changes raw = changes_of (json.order_rejected raw) λ p.
      changes_of (json.parse_rfc3339 p.rejected_at) λ at.
        rejection_changes p.restaurant_id p.branch_id (utc_date at)
          (country_code_or_region p.country_code p.region) p.currency

  -- the whole milliseconds between the two times, 0 where the second is before the first
  abbrev pub delivered_changes : R → List Change
  delivered_changes raw = changes_of (json.order_delivered raw) λ p.
      changes_of (json.parse_rfc3339 p.placed_at) λ from.
        changes_of (json.parse_rfc3339 p.delivered_at) λ to.
          delivery_changes p.restaurant_id p.branch_id (utc_date to)
            (country_code_or_region p.country_code p.region) p.currency
            (at_least_zero (milliseconds (sub_time to from)))

  abbrev effects : List (String × (R → List Change))
  effects =
      ("order.placed", placed_changes)
      ∷ ("order.rejected", rejected_changes)
      ∷ ("order.delivered", delivered_changes)
      ∷ ("payment.completed", payment_changes)
      ∷ []

  abbrev applied : Option (R → List Change) → R → List Change
  applied none raw = []
  applied (some f) raw = f raw

  -- The effect of an event: that of its type. An event of another type has none.
  unfoldable pub effect : Envelope R → List Change
  effect env = applied (assoc env.event_type effects) env.payload

abbrev pub handled_by : {W R : Type 0} → Option (EventHandler W R) → EventHandler W R
handled_by none env = pure tt
handled_by (some h) env = h env

-- The handlers of the map on a sequence of events, up to the first error.
unfoldable pub handle_all :
    {W R : Type 0} → Decoders R → EventService W → List (Envelope R) → Exec W (Unit {0})
handle_all json svc [] = pure tt
handle_all json svc (env ∷ rest) = do
  handled_by (assoc env.event_type (build json svc)) env
  handle_all json svc rest
