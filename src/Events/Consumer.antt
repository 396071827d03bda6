-- ===== src/Events/Consumer.antt =====
-- lib/coreevents/consumer.go: one delivery is decoded, marked as seen, handed to its handler, and
-- acknowledged or dead-lettered.
pub mod Laws
pub mod Answers
pub mod Redelivery
use quickbite_analytics_serv.Base.{
  String, Bool, true, false, ◌||◌, Option, none, some, List, [], ◌∷◌, str_eq, if◌then◌else◌,
}
use quickbite_analytics_serv.Errors.{Err, Result, ok, err, is_permanent}
use quickbite_analytics_serv.Exec.{Exec, ◌>>◌}
use quickbite_analytics_serv.Messaging.{Delivery, ConsumerOptions, Amqp}
use quickbite_analytics_serv.Messaging.Connection.{State}
use quickbite_analytics_serv.Messaging.Topology.{wrapped}
use quickbite_analytics_serv.Messaging.Client.{ConsumeLoop, declare_topology, consume}
use quickbite_analytics_serv.Mongo.Rows.{assoc}
use quickbite_analytics_serv.Events.Payloads.{Envelope}
use quickbite_analytics_serv.Events.Handlers.{EventHandler}

-- `coreevents.EventDeduper`
pub record EventDeduper (W : Type 0) : Type 0 where
  pub mark_seen : String → Exec W Bool
  pub forget : String → Exec W (Unit {0})

-- `coreevents.Consumer`, less the broker, which `Start` takes; `decode` is `json.Unmarshal` of the
-- body.
pub record Consumer (W B R : Type 0) : Type 0 where
  pub decode : B → Result (Envelope R)
  pub deduper : EventDeduper W
  pub topology : ConsumerOptions
  pub handlers : List (String × EventHandler W R)

module _ {W B R : Type 0} where
  -- `Register`: the last registration of a type is found first.
  unfoldable pub register : String → EventHandler W R → Consumer W B R → Consumer W B R
  register event_type h c = record c { handlers = (event_type, h) ∷ c.handlers }

  -- after the handler: a transient failure gives the marker back, and the release may fail too
  unfoldable pub settle :
      Consumer W B R → Delivery W B → Envelope R → Result (Unit {0}) → Exec W (Unit {0})
  settle c d env (ok _) w = d.ack w
  settle c d env (err e) w =
      d.nack false (if is_permanent e then w else (c.deduper.forget env.event_id w).1)

  unfoldable pub run_handler :
      Consumer W B R → Delivery W B → Envelope R → Option (EventHandler W R) → Exec W (Unit {0})
  unfolding settle
  run_handler c d env none w = d.ack w
  run_handler c d env (some h) w = let (answer, w') = h env w in settle c d env answer w'

  unfoldable pub after_mark :
      Consumer W B R → Delivery W B → Envelope R → Result Bool → Exec W (Unit {0})
  unfolding run_handler
  after_mark c d env (err e) w = d.nack false w
  after_mark c d env (ok false) w = d.ack w
  after_mark c d env (ok true) w = run_handler c d env (assoc env.event_type c.handlers) w

  unfoldable pub dispatch_envelope :
      Consumer W B R → Delivery W B → Result (Envelope R) → Exec W (Unit {0})
  unfolding after_mark
  dispatch_envelope c d (err e) w = d.nack false w
  dispatch_envelope c d (ok env) w =
      if str_eq env.event_id "" || str_eq env.event_type ""
      then d.nack false w
      else (let (fresh, w') = c.deduper.mark_seen env.event_id w in after_mark c d env fresh w')

  unfoldable pub dispatch : Consumer W B R → Delivery W B → Exec W (Unit {0})
  unfolding dispatch_envelope
  dispatch c d = dispatch_envelope c d (c.decode d.body)

  -- `NewConsumer`
  unfoldable pub new_consumer :
      (B → Result (Envelope R)) → EventDeduper W → ConsumerOptions → Consumer W B R
  new_consumer decode deduper topology = record {
    decode = decode;
    deduper = deduper;
    topology = topology;
    handlers = [];
  }

  -- `Start`; `others` is what other goroutines do between the critical sections of the broker.
  unfoldable pub start :
      {C H Q : Type 0} (amqp : Amqp W C H Q B)
      → (State amqp → State amqp)
      → Consumer W B R
      → Exec (State amqp) (ConsumeLoop W H Q B)
  start amqp others c = do
    wrapped "coreevents declare topology" (declare_topology amqp others c.topology)
    consume amqp others c.topology (dispatch c)
