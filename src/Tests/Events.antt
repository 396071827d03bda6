-- ===== src/Tests/Events.antt =====
-- The events at concrete deliveries. The consumer runs over a set of markers and a count of the
-- events that were handled.
use quickbite_analytics_serv.Base.{
  ℕ, suc, String, ◌≡◌, refl, Bool, true, false, ◌||◌, ◌&&◌, not, inl, inr, Bool-cases, none, List,
  [], ◌∷◌, str_eq, if◌then◌else◌,
}
use quickbite_analytics_serv.Base.Int.{ℤ, pos}
use quickbite_analytics_serv.Errors.{plain, ok, err, is_permanent}
use quickbite_analytics_serv.Exec.{Exec}
use quickbite_analytics_serv.Messaging.{Delivery, ConsumerOptions}
use quickbite_analytics_serv.Repository.Interfaces.{distinct_products}
use quickbite_analytics_serv.Repository.Stores.{new_analytics_service}
use quickbite_analytics_serv.Service.Writes.{
  on_order_placed, on_order_rejected, on_order_delivered, on_payment_completed,
}
use quickbite_analytics_serv.Events.Items.{OrderItemPayload, to_item_inputs}
use quickbite_analytics_serv.Events.Items.Laws.{
  to_item_inputs-distinct, held-to_item_inputs, held, sums_from,
}
use quickbite_analytics_serv.Events.Payloads.{Envelope, Decoders, EventService}
use quickbite_analytics_serv.Events.Handlers.{
  EventHandler, handle_order_placed, handle_order_rejected, handle_order_delivered,
  handle_payment_completed,
}
use quickbite_analytics_serv.Events.Handlers.Inputs.{
  Passes, GoodPlaced, GoodPayment, GoodRejected, GoodDelivered,
}
use quickbite_analytics_serv.Events.Handlers.Laws.{handlers_cases}
use quickbite_analytics_serv.Events.Consumer.{EventDeduper, Consumer, dispatch}
use quickbite_analytics_serv.Events.Consumer.Laws.{
  DeduperLaws, Named, KeepsMarks, handled_once, transient_released,
}
use quickbite_analytics_serv.Tests.Memory.{World, empty, memory}
use quickbite_analytics_serv.Tests.Data.{utc_date}

abbrev line : ℤ → ℤ → OrderItemPayload
line product total = record {
  product_id = product;
  quantity = pos 1;
  unit_price_snapshot = total;
  line_total = total;
}

-- two lines of one product, and one of another
abbrev lines : List OrderItemPayload
lines = line (pos 31) (pos 900) ∷ line (pos 32) (pos 200) ∷ line (pos 31) (pos 900) ∷ []

to_item_inputs-distinct_example : distinct_products (to_item_inputs lines) ≡ true
to_item_inputs-distinct_example = to_item_inputs-distinct lines

held-to_item_inputs_example : held (pos 31) (to_item_inputs lines) ≡ sums_from (pos 31) none lines
held-to_item_inputs_example = held-to_item_inputs (pos 31) lines

abbrev pub json : Decoders (Unit {0})
json = record {
  order_placed = λ raw. ok (record {
    order_id = "ord-1";
    region = "eg";
    country_code = "EG";
    restaurant_id = pos 7;
    branch_id = pos 70;
    customer_id = pos 5;
    status = "placed";
    subtotal = pos 2000;
    delivery_fee = pos 0;
    service_fee = pos 0;
    total = pos 2000;
    currency = "EGP";
    items = lines;
    placed_at = "2026-05-21T10:00:00Z";
  });
  order_rejected = λ raw. ok (record {
    order_id = "ord-1";
    region = "eg";
    country_code = "";
    restaurant_id = pos 7;
    branch_id = pos 70;
    currency = "EGP";
    rejected_at = "2026-05-21T10:05:00Z";
  });
  order_delivered = λ raw. ok (record {
    order_id = "ord-1";
    region = "eg";
    country_code = "EG";
    restaurant_id = pos 7;
    branch_id = pos 70;
    currency = "EGP";
    placed_at = "2026-05-21T10:00:00Z";
    delivered_at = "2026-05-21T10:30:00Z";
  });
  payment_completed = λ raw. ok (record {
    order_id = "ord-1";
    region = "eg";
    country_code = "";
    restaurant_id = pos 7;
    branch_id = pos 70;
    total = pos 2000;
    currency = "EGP";
    items = lines;
    completed_at = "2026-05-21T10:01:00Z";
  });
  parse_rfc3339 = λ text. ok (pos 1000);
}

abbrev pub service : EventService World
service = record {
  on_order_placed = on_order_placed (new_analytics_service memory) utc_date;
  on_order_rejected = on_order_rejected (new_analytics_service memory) utc_date;
  on_order_delivered = on_order_delivered (new_analytics_service memory) utc_date;
  on_payment_completed = on_payment_completed (new_analytics_service memory) utc_date;
}

abbrev pub envelope : Envelope (Unit {0})
envelope = record {
  event_id = "evt-1";
  event_type = "order.placed";
  occurred_at = "2026-05-21T10:00:00Z";
  aggregate_type = "order";
  aggregate_id = "ord-1";
  payload = tt;
}

handlers_cases_example :
    Passes service.on_order_placed
      (GoodPlaced json envelope)
      (handle_order_placed json service envelope)
      empty
    × Passes service.on_payment_completed
        (GoodPayment json envelope)
        (handle_payment_completed json service envelope)
        empty
    × Passes service.on_order_rejected
        (GoodRejected json envelope)
        (handle_order_rejected json service envelope)
        empty
    × Passes service.on_order_delivered
        (GoodDelivered json envelope)
        (handle_order_delivered json service envelope)
        empty
handlers_cases_example = handlers_cases json service envelope empty

-- the state of the consumer's tests
pub record Seen : Type 0 where
  pub marks : String → Bool
  pub handled : ℕ

abbrev pub start : Seen
start = record { marks = λ i. false; handled = 0 }

abbrev mark : String → Exec Seen Bool
mark i s =
    if s.marks i
    then (ok false, s)
    else (ok true, record s { marks = λ j. str_eq i j || s.marks j })

abbrev pub deduper : EventDeduper Seen
deduper = record {
  mark_seen = mark;
  forget = λ i s. (ok tt, record s { marks = λ j. not (str_eq i j) && s.marks j });
}

pub mark_fresh :
    (i : String) (s : Seen)
    → (mark i s).0 ≡ ok true
    → (s.marks i ≡ false) × ((j : String) → (mark i s).1.marks j ≡ (str_eq i j || s.marks j))
mark_fresh i s done = elim (Bool-cases (s.marks i)) [
  | inl marked ↦ let impossible : ok false ≡ ok true = rw marked at done in cc
  | inr unmarked ↦ (unmarked, λ j. rw unmarked refl)
]

pub mark_refused : (i : String) (s : Seen) → (mark i s).0 ≡ ok false → s.marks i ≡ true
mark_refused i s done = elim (Bool-cases (s.marks i)) [
  | inl marked ↦ marked
  | inr unmarked ↦ let impossible : ok true ≡ ok false = rw unmarked at done in cc
]

abbrev pub deduper_laws : DeduperLaws deduper
deduper_laws = record {
  marked = λ s i. s.marks i;
  mark_fresh = mark_fresh;
  mark_again = λ i s marked. rw marked refl;
  mark_refused = mark_refused;
  forget_ok = λ i s done j. refl;
}

abbrev pub count : EventHandler Seen (Unit {0})
count env s = (ok tt, record s { handled = suc s.handled })

abbrev time_out : EventHandler Seen (Unit {0})
time_out env s = (err (plain "timeout"), s)

abbrev pub topology : ConsumerOptions
topology = record {
  exchange = "order.events";
  queue = "analytics-service.order-events";
  binding_keys = "order.#" ∷ "payment.#" ∷ [];
  dead_letter_exchange = "order.events.dlx";
  dead_letter_queue = "analytics-service.order-events.dlq";
  prefetch = pos 32;
}

abbrev pub consumer : EventHandler Seen (Unit {0}) → Consumer Seen (Unit {0}) (Unit {0})
consumer h = record {
  decode = λ body. ok envelope;
  deduper = deduper;
  topology = topology;
  handlers = ("order.placed", h) ∷ [];
}

abbrev pub delivery : Delivery Seen (Unit {0})
delivery = record {
  routing_key = "order.placed";
  body = tt;
  ack = λ s. (ok tt, s);
  nack = λ requeue s. (ok tt, s);
}

abbrev pub named :
    (h : EventHandler Seen (Unit {0})) → Named (consumer h) deduper_laws delivery envelope
named h = record { decoded = refl; id_given = refl; type_given = refl }

abbrev keeps_count : KeepsMarks (consumer count) deduper_laws count delivery
keeps_count = record {
  handler_keeps = λ env s j. refl;
  ack_keeps = λ s j. refl;
  nack_keeps = λ b s j. refl;
}

abbrev keeps_time_out : KeepsMarks (consumer time_out) deduper_laws time_out delivery
keeps_time_out = record {
  handler_keeps = λ env s j. refl;
  ack_keeps = λ s j. refl;
  nack_keeps = λ b s j. refl;
}

handled_once_example :
    dispatch (consumer count) delivery (dispatch (consumer count) delivery start).1
    ≡ (ok tt, (dispatch (consumer count) delivery start).1)
handled_once_example =
    handled_once (consumer count) deduper_laws delivery envelope count start (named count) refl refl
      delivery envelope keeps_count tt (named count) refl

transient_released_example : (dispatch (consumer time_out) delivery start).1.marks "evt-1" ≡ false
unfolding is_permanent
transient_released_example =
    transient_released (consumer time_out) deduper_laws delivery envelope time_out start
      (named time_out) refl refl (plain "timeout") keeps_time_out refl refl refl
