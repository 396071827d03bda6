-- ===== src/Events/Payloads.antt =====
-- The envelope of lib/coreevents/payloads.go, the payloads of
-- app/analytics/eventhandlers/handlers.go, and the decoders that the handlers call.
use quickbite_analytics_serv.Base.{String, List}
use quickbite_analytics_serv.Base.Int.{ℤ}
use quickbite_analytics_serv.Errors.{Result}
use quickbite_analytics_serv.Exec.{Exec}
use quickbite_analytics_serv.Mongo.Values.{Time}
use quickbite_analytics_serv.Types.{
  OnOrderPlacedInput, OnOrderRejectedInput, OnOrderDeliveredInput, OnPaymentCompletedInput,
}
use quickbite_analytics_serv.Events.Items.{OrderItemPayload}

-- `R` is `json.RawMessage`.
pub record Envelope (R : Type 0) : Type 0 where
  pub event_id : String
  pub event_type : String
  pub occurred_at : String
  pub aggregate_type : String
  pub aggregate_id : String
  pub payload : R

pub record OrderPlacedPayload : Type 0 where
  pub order_id : String
  pub region : String
  pub country_code : String
  pub restaurant_id : ℤ
  pub branch_id : ℤ
  pub customer_id : ℤ
  pub status : String
  pub subtotal : ℤ
  pub delivery_fee : ℤ
  pub service_fee : ℤ
  pub total : ℤ
  pub currency : String
  pub items : List OrderItemPayload
  pub placed_at : String

pub record OrderRejectedPayload : Type 0 where
  pub order_id : String
  pub region : String
  pub country_code : String
  pub restaurant_id : ℤ
  pub branch_id : ℤ
  pub currency : String
  pub rejected_at : String

pub record OrderDeliveredPayload : Type 0 where
  pub order_id : String
  pub region : String
  pub country_code : String
  pub restaurant_id : ℤ
  pub branch_id : ℤ
  pub currency : String
  pub placed_at : String
  pub delivered_at : String

pub record PaymentCompletedPayload : Type 0 where
  pub order_id : String
  pub region : String
  pub country_code : String
  pub restaurant_id : ℤ
  pub branch_id : ℤ
  pub total : ℤ
  pub currency : String
  pub items : List OrderItemPayload
  pub completed_at : String

-- `json.Unmarshal` at each of the types, and `time.Parse(time.RFC3339, …)`.
pub record Decoders (R : Type 0) : Type 0 where
  pub order_placed : R → Result OrderPlacedPayload
  pub order_rejected : R → Result OrderRejectedPayload
  pub order_delivered : R → Result OrderDeliveredPayload
  pub payment_completed : R → Result PaymentCompletedPayload
  pub parse_rfc3339 : String → Result Time

-- `analytics.EventService`
pub record EventService (W : Type 0) : Type 0 where
  pub on_order_placed : OnOrderPlacedInput → Exec W (Unit {0})
  pub on_order_rejected : OnOrderRejectedInput → Exec W (Unit {0})
  pub on_order_delivered : OnOrderDeliveredInput → Exec W (Unit {0})
  pub on_payment_completed : OnPaymentCompletedInput → Exec W (Unit {0})
