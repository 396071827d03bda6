-- ===== src/Events/Handlers/Inputs.antt =====
-- The inputs that the handlers of app/analytics/eventhandlers/handlers.go hand to the service: what
-- they have of the payload, and what was checked.
use quickbite_analytics_serv.Base.{
  String, ◌≡◌, ◌≢◌, refl, Bool, true, false, ◌⊎◌, inl, List, [], ◌∷◌, arith, eq_iff, All,
  if◌then◌else◌,
}
use quickbite_analytics_serv.Base.Text.{str_eq-nonempty}
use quickbite_analytics_serv.Base.Int.{ℤ, pos, ◌≤ℤ◌}
use quickbite_analytics_serv.Errors.{Err, permanent, Result, ok, err, is_permanent}
use quickbite_analytics_serv.Exec.{Exec, ◌>>=◌}
use quickbite_analytics_serv.Mongo.Values.{Time}
use quickbite_analytics_serv.Types.{
  OrderItemInput, OnOrderPlacedInput, OnOrderRejectedInput, OnOrderDeliveredInput,
  OnPaymentCompletedInput,
}
use quickbite_analytics_serv.Repository.Interfaces.{distinct_products}
use quickbite_analytics_serv.Events.Items.{OrderItemPayload, to_item_inputs}
use quickbite_analytics_serv.Events.Items.Laws.{to_item_inputs-distinct}
use quickbite_analytics_serv.Events.Payloads.{
  Envelope, OrderPlacedPayload, OrderRejectedPayload, OrderDeliveredPayload,
  PaymentCompletedPayload, Decoders,
}
use quickbite_analytics_serv.Events.Handlers.{
  validate_items, or_permanent, sub_time, milliseconds, validate_order_placed,
  validate_payment_completed, bad_rejected, bad_delivered, country_code_or_region,
}

-- What the service may assume of the parties of an event.
pub record HasParties (order_id : String) (restaurant_id branch_id : ℤ)
    (country_code currency : String) : Type 0 where
  pub order : order_id ≢ ""
  pub restaurant : pos 1 ≤ℤ restaurant_id
  pub branch : pos 1 ≤ℤ branch_id
  pub country : country_code ≢ ""
  pub money : currency ≢ ""

abbrev pub ValidLine : OrderItemPayload → Type 0
ValidLine it = (pos 1 ≤ℤ it.product_id) × (pos 1 ≤ℤ it.quantity) × (pos 0 ≤ℤ it.line_total)

-- What it may assume of the money and the items of a sale, and how the items come from the lines of
-- the payload.
pub record ValidSale (total : ℤ) (lines : List OrderItemPayload) (items : List OrderItemInput)
    : Type 0 where
  pub total_nonneg : pos 0 ≤ℤ total
  pub lines_valid : All ValidLine lines
  pub merged : items ≡ to_item_inputs lines
  pub distinct : distinct_products items ≡ true

-- The country code of a payload, or its region where that is empty.
abbrev pub country_from : String → String → String
country_from String.[] region = region
country_from (String.◌∷◌ c rest) region = String.◌∷◌ c rest

pub country_code_or_region-eq :
    (country_code region : String)
    → country_code_or_region country_code region ≡ country_from country_code region
unfolding country_code_or_region
country_code_or_region-eq String.[] region = refl
country_code_or_region-eq (String.◌∷◌ c rest) region = rw (str_eq-nonempty c rest) refl

-- A refusal that no retry can mend: the error is permanent, and nothing was written.
abbrev pub Refused : {W : Type 0} → Exec W (Unit {0}) → W → Type 0
Refused m w = (e : Err) × (m w ≡ (err e, w)) × (is_permanent e ≡ true)

-- A handler refuses, or it is the service's method at an input of which `Good` holds.
abbrev pub Passes :
    {W I : Type 0} → (I → Exec W (Unit {0})) → (I → Type 0) → Exec W (Unit {0}) → W → Type 0
Passes {I} method Good m w = Refused m w ⊎ ((i : I) × Good i × (m w ≡ method i w))

pub Passes-bind :
    {W I A : Type 0} (method : I → Exec W (Unit {0})) (Good : I → Type 0) (r : Result A)
    (note : Err → Err) (f : A → Exec W (Unit {0})) (w : W)
    → ((a : A) → r ≡ ok a → Passes method Good (f a) w)
    → Passes method Good (or_permanent r note >>= f) w
unfolding is_permanent
Passes-bind method Good (ok a) note f w h = h a refl
Passes-bind method Good (err e) note f w h = inl (permanent (note e), refl, refl)

validate_items-ValidLine :
    (event_type : String) (items : List OrderItemPayload)
    → validate_items event_type items ≡ ok tt
    → All ValidLine items
unfolding validate_items
validate_items-ValidLine event_type [] h = tt
validate_items-ValidLine event_type (it ∷ items) h =
    ground (arith, validate_items-ValidLine event_type items)

module _ (p : OrderPlacedPayload) (h : validate_order_placed p ≡ ok tt) where
  pub placed-HasParties :
      HasParties p.order_id p.restaurant_id p.branch_id p.country_code p.currency
  unfolding validate_order_placed
  placed-HasParties = record {
    order = λ e. ground (arith, eq_iff p.order_id "");
    restaurant = ground arith;
    branch = ground arith;
    country = λ e. ground (arith, eq_iff p.country_code "");
    money = λ e. ground (arith, eq_iff p.currency "");
  }

  pub placed-ValidSale : ValidSale p.total p.items (to_item_inputs p.items)
  unfolding validate_order_placed
  placed-ValidSale = record {
    total_nonneg = ground arith;
    lines_valid = validate_items-ValidLine "order.placed" p.items (ground arith);
    merged = refl;
    distinct = to_item_inputs-distinct p.items;
  }

module _ (p : PaymentCompletedPayload) (h : validate_payment_completed p ≡ ok tt) where
  pub payment-HasParties :
      HasParties p.order_id p.restaurant_id p.branch_id
        (country_code_or_region p.country_code p.region)
        p.currency
  unfolding validate_payment_completed
  payment-HasParties = record {
    order = λ e. ground (arith, eq_iff p.order_id "");
    restaurant = ground arith;
    branch = ground arith;
    country = λ e. ground (arith, eq_iff (country_code_or_region p.country_code p.region) "");
    money = λ e. ground (arith, eq_iff p.currency "");
  }

  pub payment-ValidSale : ValidSale p.total p.items (to_item_inputs p.items)
  unfolding validate_payment_completed
  payment-ValidSale = record {
    total_nonneg = ground arith;
    lines_valid = validate_items-ValidLine "payment.completed" p.items (ground arith);
    merged = refl;
    distinct = to_item_inputs-distinct p.items;
  }

module _ (p : OrderRejectedPayload) (h : bad_rejected p ≡ false) where
  pub rejected-HasParties :
      HasParties p.order_id p.restaurant_id p.branch_id
        (country_code_or_region p.country_code p.region)
        p.currency
  unfolding bad_rejected
  rejected-HasParties = record {
    order = λ e. ground (arith, eq_iff p.order_id "");
    restaurant = ground arith;
    branch = ground arith;
    country = λ e. ground (arith, eq_iff (country_code_or_region p.country_code p.region) "");
    money = λ e. ground (arith, eq_iff p.currency "");
  }

module _ (p : OrderDeliveredPayload) (h : bad_delivered p ≡ false) where
  pub delivered-HasParties :
      HasParties p.order_id p.restaurant_id p.branch_id
        (country_code_or_region p.country_code p.region)
        p.currency
  unfolding bad_delivered
  delivered-HasParties = record {
    order = λ e. ground (arith, eq_iff p.order_id "");
    restaurant = ground arith;
    branch = ground arith;
    country = λ e. ground (arith, eq_iff (country_code_or_region p.country_code p.region) "");
    money = λ e. ground (arith, eq_iff p.currency "");
  }

pub not_refused : (b : Bool) (e : Err) → (if b then err e else ok tt) ≡ ok tt → b ≡ false
not_refused true e h = cc
not_refused false e h = refl

module _ {R : Type 0} (json : Decoders R) (env : Envelope R) where
  -- What each handler establishes of the input that it hands to the service: it is read from the
  -- payload of the event, its time from the text in the payload, and it is valid.
  abbrev pub GoodPlaced : OnOrderPlacedInput → Type 0
  GoodPlaced i =
      (p : OrderPlacedPayload) × (json.order_placed env.payload ≡ ok p)
      × (json.parse_rfc3339 p.placed_at ≡ ok i.placed_at)
      × (i.order_id ≡ p.order_id)
      × (i.restaurant_id ≡ p.restaurant_id)
      × (i.branch_id ≡ p.branch_id)
      × (i.country_code ≡ p.country_code)
      × (i.currency ≡ p.currency)
      × (i.total ≡ p.total)
      × HasParties i.order_id i.restaurant_id i.branch_id i.country_code i.currency
      × ValidSale i.total p.items i.items

  abbrev pub GoodPayment : OnPaymentCompletedInput → Type 0
  GoodPayment i =
      (p : PaymentCompletedPayload) × (json.payment_completed env.payload ≡ ok p)
      × (json.parse_rfc3339 p.completed_at ≡ ok i.completed_at)
      × (i.order_id ≡ p.order_id)
      × (i.restaurant_id ≡ p.restaurant_id)
      × (i.branch_id ≡ p.branch_id)
      × (i.country_code ≡ country_from p.country_code p.region)
      × (i.currency ≡ p.currency)
      × (i.total ≡ p.total)
      × HasParties i.order_id i.restaurant_id i.branch_id i.country_code i.currency
      × ValidSale i.total p.items i.items

  abbrev pub GoodRejected : OnOrderRejectedInput → Type 0
  GoodRejected i =
      (p : OrderRejectedPayload) × (json.order_rejected env.payload ≡ ok p)
      × (json.parse_rfc3339 p.rejected_at ≡ ok i.rejected_at)
      × (i.order_id ≡ p.order_id)
      × (i.restaurant_id ≡ p.restaurant_id)
      × (i.branch_id ≡ p.branch_id)
      × (i.country_code ≡ country_from p.country_code p.region)
      × (i.currency ≡ p.currency)
      × HasParties i.order_id i.restaurant_id i.branch_id i.country_code i.currency

  abbrev pub GoodDelivered : OnOrderDeliveredInput → Type 0
  GoodDelivered i =
      (p : OrderDeliveredPayload) × (json.order_delivered env.payload ≡ ok p)
      × (placed_at : Time) × (json.parse_rfc3339 p.placed_at ≡ ok placed_at)
      × (json.parse_rfc3339 p.delivered_at ≡ ok i.delivered_at)
      × (i.delivery_ms ≡ milliseconds (sub_time i.delivered_at placed_at))
      × (i.order_id ≡ p.order_id)
      × (i.restaurant_id ≡ p.restaurant_id)
      × (i.branch_id ≡ p.branch_id)
      × (i.country_code ≡ country_from p.country_code p.region)
      × (i.currency ≡ p.currency)
      × HasParties i.order_id i.restaurant_id i.branch_id i.country_code i.currency
