-- ===== src/Boot/Startup.antt =====
-- The broker after the start of lib/boot/boot.go: whatever failed on the way, it is in a state that
-- the operations of pkg/messaging/amqp.go can be called in.
use quickbite_analytics_serv.Base.{inl, inr}
use quickbite_analytics_serv.Errors.{Result-cases}
use quickbite_analytics_serv.Messaging.{Amqp}
use quickbite_analytics_serv.Messaging.Connection.{Config, State, new_amqp_broker}
use quickbite_analytics_serv.Messaging.Client.{declare_topology}
use quickbite_analytics_serv.Messaging.Reachable.{
  Step, Reachable, declare_topology-Stays, consume-Stays,
}
use quickbite_analytics_serv.Events.Consumer.{Consumer, start, dispatch}
use quickbite_analytics_serv.Boot.Env.{Env}
use quickbite_analytics_serv.Boot.Consumers.{Consumers, start_core_events_consumer}
use quickbite_analytics_serv.Boot.Providers.{provide_messaging_broker}

module _ {W C H Q B : Type 0} (amqp : Amqp W C H Q B) where
  abbrev pub broker_config : Env → Config
  broker_config cfg = record { url = cfg.rabbit.url; reconnect_min = 0 }

  provide_messaging_broker-Reachable :
      (cfg : Env) (w : W) → Reachable amqp (broker_config cfg) (provide_messaging_broker amqp cfg w)
  unfolding provide_messaging_broker
  provide_messaging_broker-Reachable cfg w =
      Reachable.later (Reachable.made w) (Step.connects (new_amqp_broker (broker_config cfg), w))

  start-Reachable :
      {R : Type 0} (cfg : Config) (others : State amqp → State amqp) (c : Consumer W B R)
      (s : State amqp)
      → ((t : State amqp) → Reachable amqp cfg t → Reachable amqp cfg (others t))
      → Reachable amqp cfg s
      → Reachable amqp cfg (start amqp others c s).1
  unfolding start
  start-Reachable cfg others c s fair r =
      let r' = declare_topology-Stays amqp cfg others c.topology fair s r in
      elim (Result-cases (declare_topology amqp others c.topology s).0) [
        | inl (tt, declared) ↦ rw declared (
            consume-Stays amqp cfg others c.topology (dispatch c) fair
              (declare_topology amqp others c.topology s).1 r')
        | inr (e, failed) ↦ rw failed r'
      ]

  -- After start-up the broker is in a state that it can be in by the critical sections of its
  -- operations, whether it was reached at once, later, or not at all, and whatever other goroutines
  -- did with it meanwhile.
  pub start_core_events_consumer-Reachable :
      {R : Type 0} (cfg : Env) (others : State amqp → State amqp) (cs : Consumers W B R) (w : W)
      → ((t : State amqp)
          → Reachable amqp (broker_config cfg) t
          → Reachable amqp (broker_config cfg) (others t))
      → Reachable amqp
          (broker_config cfg)
          (start_core_events_consumer amqp others cs (provide_messaging_broker amqp cfg w)).1
  unfolding start_core_events_consumer
  start_core_events_consumer-Reachable cfg others cs w fair =
      start-Reachable (broker_config cfg) others cs.core_events
        (start amqp others cs.order_events (provide_messaging_broker amqp cfg w)).1 fair
        (start-Reachable (broker_config cfg) others cs.order_events
          (provide_messaging_broker amqp cfg w) fair (provide_messaging_broker-Reachable cfg w))
