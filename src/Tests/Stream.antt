-- ===== src/Tests/Stream.antt =====
-- A stream with a repeated event over the database in memory, whose markers are the consumer's.
use quickbite_analytics_serv.Base.{
  String, ◌≡◌, refl, sym, ◌∙◌, Bool, true, false, Bool-cases, inl, inr, List, [], ◌∷◌,
}
use quickbite_analytics_serv.Base.Int.{pos, ◌+ℤ◌}
use quickbite_analytics_serv.Errors.{ok}
use quickbite_analytics_serv.Messaging.{Delivery, Amqp}
use quickbite_analytics_serv.Messaging.Client.{consume_loop}
use quickbite_analytics_serv.Mongo.Rows.{Counter, orders_count}
use quickbite_analytics_serv.Repository.RestaurantDay
use quickbite_analytics_serv.Repository.BranchDay
use quickbite_analytics_serv.Repository.ProductDay
use quickbite_analytics_serv.Repository.PlatformDay
use quickbite_analytics_serv.Repository.EventIds.{mark_seen, seen_answer, is_dup_key, has_dup_code}
use quickbite_analytics_serv.Repository.Interfaces.{AnalyticsService, RepositoryLaws}
use quickbite_analytics_serv.Repository.Stores.{new_analytics_service}
use quickbite_analytics_serv.Repository.Counting.{mongo_laws}
use quickbite_analytics_serv.Rows.{Row, restaurant, total_for}
use quickbite_analytics_serv.Service.Writes.{on_order_placed, on_order_rejected}
use quickbite_analytics_serv.Events.Payloads.{Envelope}
use quickbite_analytics_serv.Events.Items.{to_item_inputs, merge_items, merge_item}
use quickbite_analytics_serv.Events.Handlers.{
  build, handle_order_placed, handle_order_rejected, validate_order_placed, validate_items,
  bad_rejected,
}
use quickbite_analytics_serv.Events.Effects.{event_service}
use quickbite_analytics_serv.Events.Effects.Laws.{effects_of}
use quickbite_analytics_serv.Events.Consumer.{Consumer, dispatch}
use quickbite_analytics_serv.Events.Consumer.Laws.{DeduperLaws}
use quickbite_analytics_serv.Events.Deduper.{event_ids_repo, event_ids_laws, event_ids_laws-marked}
use quickbite_analytics_serv.Events.Stream.{
  Wired, Accepted, handled, firsts, arrivals, events_of, stream_counted,
}
use quickbite_analytics_serv.Tests.Memory.{World, empty, memory, memory_upserts, memory_markers}
use quickbite_analytics_serv.Tests.Data.{utc_date}
use quickbite_analytics_serv.Tests.Events.{json, envelope, topology}

abbrev Event : Type 0
Event = Envelope (Unit {0})

abbrev service : AnalyticsService World
service = new_analytics_service memory

abbrev laws : RepositoryLaws service
laws = mongo_laws memory memory_upserts

abbrev consumer : Consumer World Event (Unit {0})
consumer = record {
  decode = λ body. ok body;
  deduper = event_ids_repo memory;
  topology = topology;
  handlers = build json (event_service service utc_date);
}

abbrev marks : DeduperLaws consumer.deduper
marks = event_ids_laws memory memory_markers

abbrev rejected : Event
rejected = record envelope { event_id = "evt-2"; event_type = "order.rejected" }

abbrev delivery : Event → Delivery World Event
delivery env = record {
  routing_key = env.event_type;
  body = env;
  ack = λ w. (ok tt, w);
  nack = λ requeue w. (ok tt, w);
}

mark_answers : (i : String) (w : World) → (b : Bool) × ((mark_seen memory i w).0 ≡ ok b)
unfolding mark_seen seen_answer is_dup_key has_dup_code
mark_answers i w = elim (Bool-cases (w.marks i)) [
  | inl marked ↦ (false, rw marked refl)
  | inr fresh ↦ (true, rw fresh refl)
]

mark_counts :
    (i : String) (w : World) (r : Row) (k : Counter)
    → laws.counted (mark_seen memory i w).1 r k ≡ laws.counted w r k
unfolding mark_seen mongo_laws
mark_counts i w r k = elim (Bool-cases (w.marks i)) [
  | inl marked ↦ rw marked refl
  | inr fresh ↦ rw fresh refl
]

abbrev wired : Wired consumer marks service laws utc_date json
wired = record { finds = λ t. refl; answers = mark_answers; mark_counts = mark_counts }

abbrev after : Event → World → World
after env w = (handled consumer marks service laws utc_date json env w).1

same_marks :
    (v w : World) (j : String) → v.marks j ≡ w.marks j → marks.marked v j ≡ marks.marked w j
same_marks v w j same =
    event_ids_laws-marked memory memory_markers j v
    ∙ same
    ∙ sym (event_ids_laws-marked memory memory_markers j w)

placed-Accepted : Accepted consumer marks service laws utc_date json (delivery envelope, envelope)
unfolding build handle_order_placed validate_order_placed validate_items on_order_placed
    RestaurantDay.increment_order_row BranchDay.increment_order_row
    ProductDay.bulk_increment_order_items PlatformDay.increment_order_row to_item_inputs merge_items
    merge_item
placed-Accepted = record {
  named = record { decoded = refl; id_given = refl; type_given = refl };
  succeeds = λ w. refl;
  handler_marks = λ w j. same_marks (after envelope w) w j refl;
  ack_quiet = λ w. (λ r k. refl, λ j. refl);
  nack_quiet = λ w. (λ r k. refl, λ j. refl);
}

rejected-Accepted : Accepted consumer marks service laws utc_date json (delivery rejected, rejected)
unfolding build handle_order_rejected bad_rejected on_order_rejected
    RestaurantDay.increment_rejected_row BranchDay.increment_rejected_row
    PlatformDay.increment_rejected_row
rejected-Accepted = record {
  named = record { decoded = refl; id_given = refl; type_given = refl };
  succeeds = λ w. refl;
  handler_marks = λ w j. same_marks (after rejected w) w j refl;
  ack_quiet = λ w. (λ r k. refl, λ j. refl);
  nack_quiet = λ w. (λ r k. refl, λ j. refl);
}

-- a driver of whose calls the loop makes none here
abbrev driver : Amqp World (Unit {0}) (Unit {0}) (Unit {0}) Event
driver = record {
  dial = λ url w. (ok tt, w);
  is_closed = λ c w. false;
  channel = λ c w. (ok tt, w);
  notify_close = λ c w. w;
  close_connection = λ c w. (ok tt, w);
  close_channel = λ h w. (ok tt, w);
  exchange_declare = λ h name kind durable w. (ok tt, w);
  queue_declare = λ h name durable args w. (ok tt, w);
  queue_bind = λ h queue key exchange w. (ok tt, w);
  qos = λ h n w. (ok tt, w);
  consume = λ h queue w. (ok tt, w);
  publish = λ h exchange key p w. (ok tt, w);
}

-- the order is delivered again after its rejection
abbrev received : List (Delivery World Event × Event)
received =
    (delivery envelope, envelope)
    ∷ (delivery rejected, rejected)
    ∷ (delivery envelope, envelope)
    ∷ []

stream_counted_example :
    laws.counted
      (consume_loop driver tt (dispatch consumer) (arrivals received) empty).1
      (restaurant (pos 7) (utc_date (pos 1000)))
      orders_count
    ≡ laws.counted empty (restaurant (pos 7) (utc_date (pos 1000))) orders_count
      +ℤ total_for
          (restaurant (pos 7) (utc_date (pos 1000)))
          orders_count
          (effects_of service laws utc_date json (firsts (marks.marked empty) (events_of received)))
stream_counted_example =
    stream_counted consumer marks service laws utc_date json driver tt wired received empty
      (placed-Accepted, (rejected-Accepted, (placed-Accepted, tt)))
      (restaurant (pos 7) (utc_date (pos 1000))) orders_count
