-- ===== src/Events/Handlers.antt =====
-- app/analytics/eventhandlers/handlers.go: decode, validate, parse the times, call the service.
pub mod Inputs
pub mod Laws
use quickbite_analytics_serv.Base.{
  String, refl, Bool, true, false, ◌||◌, not, List, [], ◌∷◌, str_eq, if◌then◌else◌,
}
use quickbite_analytics_serv.Base.Int.{ℤ, pos, negsuc, ◌-ℤ◌, ltb_ℤ, leb_ℤ}
use quickbite_analytics_serv.Base.Int64.{div64}
use quickbite_analytics_serv.Errors.{Err, plain, wrap, permanent, Result, ok, err}
use quickbite_analytics_serv.Exec.{Exec, ◌>>=◌, ◌>>◌, fail, pure}
use quickbite_analytics_serv.Mongo.Values.{Time}
use quickbite_analytics_serv.Types.{
  event_order_placed, event_order_rejected, event_order_delivered, event_payment_complete,
}
use quickbite_analytics_serv.Events.Items.{OrderItemPayload, to_item_inputs}
use quickbite_analytics_serv.Events.Payloads.{
  Envelope, OrderPlacedPayload, OrderRejectedPayload, OrderDeliveredPayload,
  PaymentCompletedPayload, Decoders, EventService,
}

abbrev is_empty : String → Bool
is_empty s = str_eq s ""

-- `n <= 0`
abbrev not_positive : ℤ → Bool
not_positive n = leb_ℤ n (pos 0)

-- `n < 0`
abbrev is_negative : ℤ → Bool
is_negative n = ltb_ℤ n (pos 0)

abbrev pub country_code_or_region : String → String → String
country_code_or_region country_code region =
    if not (is_empty country_code) then country_code else region

abbrev bad_item : OrderItemPayload → Bool
bad_item it = not_positive it.product_id || (not_positive it.quantity || is_negative it.line_total)

unfoldable pub validate_items : String → List OrderItemPayload → Result (Unit {0})
validate_items event_type [] = ok tt
validate_items event_type (it ∷ items) =
    let rest = validate_items event_type items in
    if bad_item it then err (plain "validate payload: invalid item") else rest

abbrev pub missing : Err
missing = plain "validate payload: missing or invalid required field"

unfoldable pub validate_order_placed : OrderPlacedPayload → Result (Unit {0})
validate_order_placed p =
    if is_empty p.order_id
      || (not_positive p.restaurant_id
          || (not_positive p.branch_id
              || (is_empty p.country_code
                  || (is_empty p.currency || (is_negative p.total || is_empty p.placed_at)))))
    then err missing
    else validate_items "order.placed" p.items

unfoldable pub validate_payment_completed : PaymentCompletedPayload → Result (Unit {0})
validate_payment_completed p =
    if is_empty p.order_id
      || (not_positive p.restaurant_id
          || (not_positive p.branch_id
              || (is_empty (country_code_or_region p.country_code p.region)
                  || (is_empty p.currency || (is_negative p.total || is_empty p.completed_at)))))
    then err missing
    else validate_items "payment.completed" p.items

-- The two handlers that check their payload in line.
unfoldable pub bad_rejected : OrderRejectedPayload → Bool
bad_rejected p =
    is_empty p.order_id
    || (not_positive p.restaurant_id
        || (not_positive p.branch_id
            || (is_empty (country_code_or_region p.country_code p.region)
                || (is_empty p.currency || is_empty p.rejected_at))))

unfoldable pub bad_delivered : OrderDeliveredPayload → Bool
bad_delivered p =
    is_empty p.order_id
    || (not_positive p.restaurant_id
        || (not_positive p.branch_id
            || (is_empty (country_code_or_region p.country_code p.region)
                || (is_empty p.currency || (is_empty p.placed_at || is_empty p.delivered_at)))))

-- `t.Sub(u)` saturates to an int64 of nanoseconds.
abbrev max_duration : ℤ
max_duration = pos 9223372036854775807

abbrev min_duration : ℤ
min_duration = negsuc 9223372036854775807

unfoldable pub sub_time : Time → Time → ℤ
sub_time t u =
    let d = t -ℤ u in
    if ltb_ℤ max_duration d then max_duration else if ltb_ℤ d min_duration then min_duration else d

-- `d.Milliseconds()`
unfoldable pub milliseconds : ℤ → ℤ
milliseconds d = div64 d (pos 1000000) refl

-- `if err != nil { return coreevents.Permanent(err) }` around a step with no effect
abbrev pub or_permanent : {W A : Type 0} → Result A → (Err → Err) → Exec W A
or_permanent (ok a) note = pure a
or_permanent (err e) note = fail (permanent (note e))

abbrev pub EventHandler : Type 0 → Type 0 → Type 0
EventHandler W R = Envelope R → Exec W (Unit {0})

module _ {W R : Type 0} (json : Decoders R) (svc : EventService W) where
  unfoldable pub handle_order_placed : EventHandler W R
  handle_order_placed env = do
    p ← or_permanent (json.order_placed env.payload) (wrap "decode order.placed payload")
    or_permanent (validate_order_placed p) (λ e. e)
    placed_at ← or_permanent (json.parse_rfc3339 p.placed_at) (wrap "parse placedAt")
    svc.on_order_placed (record {
      order_id = p.order_id;
      restaurant_id = p.restaurant_id;
      branch_id = p.branch_id;
      country_code = p.country_code;
      currency = p.currency;
      total = p.total;
      placed_at = placed_at;
      items = to_item_inputs p.items;
    })

  unfoldable pub handle_order_rejected : EventHandler W R
  handle_order_rejected env = do
    p ← or_permanent (json.order_rejected env.payload) (wrap "decode order.rejected payload")
    or_permanent (if bad_rejected p then err missing else ok tt) (λ e. e)
    rejected_at ← or_permanent (json.parse_rfc3339 p.rejected_at) (wrap "parse rejectedAt")
    svc.on_order_rejected (record {
      order_id = p.order_id;
      restaurant_id = p.restaurant_id;
      branch_id = p.branch_id;
      country_code = country_code_or_region p.country_code p.region;
      currency = p.currency;
      rejected_at = rejected_at;
    })

  unfoldable pub handle_order_delivered : EventHandler W R
  unfolding sub_time milliseconds
  handle_order_delivered env = do
    p ← or_permanent (json.order_delivered env.payload) (wrap "decode order.delivered payload")
    or_permanent (if bad_delivered p then err missing else ok tt) (λ e. e)
    placed_at ← or_permanent (json.parse_rfc3339 p.placed_at) (wrap "parse placedAt")
    delivered_at ← or_permanent (json.parse_rfc3339 p.delivered_at) (wrap "parse deliveredAt")
    svc.on_order_delivered (record {
      order_id = p.order_id;
      restaurant_id = p.restaurant_id;
      branch_id = p.branch_id;
      country_code = country_code_or_region p.country_code p.region;
      currency = p.currency;
      delivered_at = delivered_at;
      delivery_ms = milliseconds (sub_time delivered_at placed_at);
    })

  unfoldable pub handle_payment_completed : EventHandler W R
  handle_payment_completed env = do
    p ← or_permanent (json.payment_completed env.payload) (wrap "decode payment.completed payload")
    or_permanent (validate_payment_completed p) (λ e. e)
    completed_at ← or_permanent (json.parse_rfc3339 p.completed_at) (wrap "parse completedAt")
    svc.on_payment_completed (record {
      order_id = p.order_id;
      restaurant_id = p.restaurant_id;
      branch_id = p.branch_id;
      country_code = country_code_or_region p.country_code p.region;
      currency = p.currency;
      total = p.total;
      completed_at = completed_at;
      items = to_item_inputs p.items;
    })

  -- `Build`
  unfoldable pub build : List (String × EventHandler W R)
  build =
      (event_order_placed, handle_order_placed)
      ∷ (event_order_rejected, handle_order_rejected)
      ∷ (event_order_delivered, handle_order_delivered)
      ∷ (event_payment_complete, handle_payment_completed)
      ∷ []
