-- ===== src/Events/Handlers/Laws.antt =====
-- The events that app/analytics/eventhandlers/handlers.go hands to the service, and those it refuses.
use quickbite_analytics_serv.Base.{refl, inr, if◌then◌else◌}
use quickbite_analytics_serv.Errors.{ok, err}
use quickbite_analytics_serv.Events.Payloads.{Envelope, Decoders, EventService}
use quickbite_analytics_serv.Events.Handlers.{
  validate_order_placed, validate_payment_completed, bad_rejected, bad_delivered, missing,
  handle_order_placed, handle_order_rejected, handle_order_delivered, handle_payment_completed,
}
use quickbite_analytics_serv.Events.Handlers.Inputs.{
  country_code_or_region-eq, Passes, Passes-bind, placed-HasParties, placed-ValidSale,
  payment-HasParties, payment-ValidSale, rejected-HasParties, delivered-HasParties, not_refused,
  GoodPlaced, GoodPayment, GoodRejected, GoodDelivered,
}

module _ {W R : Type 0} (json : Decoders R) (svc : EventService W) (env : Envelope R) (w : W) where
  -- `order.placed` is refused with a permanent error and no write, or it is the service's method at
  -- an input with positive ids, a country, a currency, a total of 0 or more, and the merged valid
  -- lines of the order, each product once.
  order_placed_cases :
      Passes svc.on_order_placed (GoodPlaced json env) (handle_order_placed json svc env) w
  unfolding handle_order_placed
  order_placed_cases =
      Passes-bind svc.on_order_placed (GoodPlaced json env) (json.order_placed env.payload) _ _ w
        λ p read.
          Passes-bind svc.on_order_placed (GoodPlaced json env) (validate_order_placed p) _ _ w
            λ _ valid.
              Passes-bind svc.on_order_placed (GoodPlaced json env) (json.parse_rfc3339 p.placed_at)
                _ _ w
                λ placed_at at. inr (
                  _,
                  (
                    p,
                    read,
                    at,
                    refl,
                    refl,
                    refl,
                    refl,
                    refl,
                    refl,
                    placed-HasParties p valid,
                    placed-ValidSale p valid,
                  ),
                  refl,
                )

  -- `payment.completed` is refused with a permanent error and no write, or it is the service's method
  -- at an input with positive ids, a country or region, a currency, a total of 0 or more, and the
  -- merged valid lines of the order, each product once.
  payment_completed_cases :
      Passes svc.on_payment_completed
        (GoodPayment json env)
        (handle_payment_completed json svc env)
        w
  unfolding handle_payment_completed
  payment_completed_cases =
      Passes-bind svc.on_payment_completed (GoodPayment json env)
        (json.payment_completed env.payload) _ _ w
        λ p read.
          Passes-bind svc.on_payment_completed (GoodPayment json env) (validate_payment_completed p)
            _ _ w
            λ _ valid.
              Passes-bind svc.on_payment_completed (GoodPayment json env)
                (json.parse_rfc3339 p.completed_at) _ _ w
                λ completed_at at. inr (
                  _,
                  (
                    p,
                    read,
                    at,
                    refl,
                    refl,
                    refl,
                    country_code_or_region-eq p.country_code p.region,
                    refl,
                    refl,
                    payment-HasParties p valid,
                    payment-ValidSale p valid,
                  ),
                  refl,
                )

  -- `order.rejected` is refused with a permanent error and no write, or it is the service's method
  -- at an input with positive ids, a country or region, and a currency.
  order_rejected_cases :
      Passes svc.on_order_rejected (GoodRejected json env) (handle_order_rejected json svc env) w
  unfolding handle_order_rejected
  order_rejected_cases =
      Passes-bind svc.on_order_rejected (GoodRejected json env) (json.order_rejected env.payload) _
        _ w
        λ p read.
          Passes-bind svc.on_order_rejected (GoodRejected json env)
            (if bad_rejected p then err missing else ok tt) _ _ w
            λ _ valid.
              Passes-bind svc.on_order_rejected (GoodRejected json env)
                (json.parse_rfc3339 p.rejected_at) _ _ w
                λ rejected_at at. inr (
                  _,
                  (
                    p,
                    read,
                    at,
                    refl,
                    refl,
                    refl,
                    country_code_or_region-eq p.country_code p.region,
                    refl,
                    rejected-HasParties p (not_refused _ _ valid),
                  ),
                  refl,
                )

  -- `order.delivered` is refused with a permanent error and no write, or it is the service's method
  -- at an input with positive ids, a country or region, and a currency.
  order_delivered_cases :
      Passes svc.on_order_delivered (GoodDelivered json env) (handle_order_delivered json svc env) w
  unfolding handle_order_delivered
  order_delivered_cases =
      Passes-bind svc.on_order_delivered (GoodDelivered json env) (json.order_delivered env.payload)
        _ _ w
        λ p read.
          Passes-bind svc.on_order_delivered (GoodDelivered json env)
            (if bad_delivered p then err missing else ok tt) _ _ w
            λ _ valid.
              Passes-bind svc.on_order_delivered (GoodDelivered json env)
                (json.parse_rfc3339 p.placed_at) _ _ w
                λ placed_at from.
                  Passes-bind svc.on_order_delivered (GoodDelivered json env)
                    (json.parse_rfc3339 p.delivered_at) _ _ w
                    λ delivered_at at. inr (
                      _,
                      (
                        p,
                        read,
                        placed_at,
                        from,
                        at,
                        refl,
                        refl,
                        refl,
                        refl,
                        country_code_or_region-eq p.country_code p.region,
                        refl,
                        delivered-HasParties p (not_refused _ _ valid),
                      ),
                      refl,
                    )

  -- Each of the four handlers either refuses its event with a permanent error and no write, or is the
  -- service's method at an input with the ids, the country or else the region, the currency, the time
  -- and the total of the payload, which are positive ids, a country and a currency that are not empty,
  -- and, where the event is a sale, a total of 0 or more and the merged lines of the payload, which are
  -- valid, each product once; a delivery has the milliseconds that Go makes of the difference of its two times.
  pub handlers_cases :
      Passes svc.on_order_placed (GoodPlaced json env) (handle_order_placed json svc env) w
      × Passes svc.on_payment_completed
          (GoodPayment json env)
          (handle_payment_completed json svc env)
          w
      × Passes svc.on_order_rejected (GoodRejected json env) (handle_order_rejected json svc env) w
      × Passes svc.on_order_delivered
          (GoodDelivered json env)
          (handle_order_delivered json svc env)
          w
  handlers_cases =
      (order_placed_cases, payment_completed_cases, order_rejected_cases, order_delivered_cases)
