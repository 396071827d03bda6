-- ===== src/Boot/Consumers.antt =====
-- lib/boot/boot.go: `provideConsumers` and the hook that starts the two consumers. Both run over the
-- permission cache beside the world, which the handlers of role changes write to.
pub mod Lookup
pub mod Laws
use quickbite_analytics_serv.Base.{String, Option, none, some, List, [], ◌∷◌}
use quickbite_analytics_serv.Errors.{Result, ok, err}
use quickbite_analytics_serv.Exec.{Exec}
use quickbite_analytics_serv.Messaging.{ConsumerOptions, Amqp}
use quickbite_analytics_serv.Messaging.Connection.{State}
use quickbite_analytics_serv.Messaging.Client.{ConsumeLoop}
use quickbite_analytics_serv.Events.Payloads.{Envelope, Decoders, EventService}
use quickbite_analytics_serv.Events.Handlers.{EventHandler, build}
use quickbite_analytics_serv.Events.Consumer.{EventDeduper, Consumer, new_consumer, register, start}
use quickbite_analytics_serv.Rbac.Cache.{CacheWorld}
use quickbite_analytics_serv.Rbac.Changes.{RbacPermissionsChangedPayload, build_rbac_handlers}
use quickbite_analytics_serv.Boot.Env.{Env}

-- `Consumers`
pub record Consumers (W B R : Type 0) : Type 0 where
  pub order_events : Consumer W B R
  pub core_events : Consumer W B R

abbrev pub order_topology : Env → ConsumerOptions
order_topology cfg = record {
  exchange = cfg.rabbit.order_events_exchange;
  queue = cfg.rabbit.order_events_queue;
  binding_keys = cfg.rabbit.order_events_bindings;
  dead_letter_exchange = cfg.rabbit.order_events_dlx;
  dead_letter_queue = cfg.rabbit.order_events_dlq;
  prefetch = cfg.rabbit.prefetch;
}

abbrev pub core_topology : Env → ConsumerOptions
core_topology cfg = record {
  exchange = cfg.rabbit.core_events_exchange;
  queue = cfg.rabbit.core_events_queue;
  binding_keys = cfg.rabbit.core_events_bindings;
  dead_letter_exchange = cfg.rabbit.core_events_dlx;
  dead_letter_queue = cfg.rabbit.core_events_dlq;
  prefetch = cfg.rabbit.prefetch;
}

module _ {W B R : Type 0} where
  -- `for eventType, h := range handlers`: Go visits the map in an order of its own choice, which is
  -- the order of the list.
  unfoldable pub register_all : List (String × EventHandler W R) → Consumer W B R → Consumer W B R
  register_all [] c = c
  register_all ((event_type, h) ∷ rest) c = register_all rest (register event_type h c)

  unfoldable pub provide_consumers :
      Env
      → (B → Result (Envelope R))
      → EventDeduper W
      → List (String × EventHandler W R)
      → List (String × EventHandler W R)
      → Consumers W B R
  unfolding register_all
  provide_consumers cfg decode deduper order_handlers rbac_handlers = record {
    order_events = register_all order_handlers (new_consumer decode deduper (order_topology cfg));
    core_events = register_all rbac_handlers (new_consumer decode deduper (core_topology cfg));
  }

-- `provideOrderEventHandlers`
unfoldable pub provide_order_event_handlers :
    {W R : Type 0} → Decoders R → EventService W → List (String × EventHandler W R)
provide_order_event_handlers json svc = build json svc

-- `provideRBACEventHandlers`
unfoldable pub provide_rbac_event_handlers :
    {W R : Type 0}
    → (R → Result RbacPermissionsChangedPayload)
    → List (String × EventHandler (CacheWorld W) R)
provide_rbac_event_handlers decode = build_rbac_handlers decode

-- The loops that a start left running.
abbrev pub running : {W H Q B : Type 0} → Result (ConsumeLoop W H Q B) → List (ConsumeLoop W H Q B)
running (ok loop) = loop ∷ []
running (err e) = []

-- `startCoreEventsConsumer`: the hook's `OnStart`, with the loops that it started. An error of either
-- start is logged, and the hook goes on.
unfoldable pub start_core_events_consumer :
    {W C H Q B R : Type 0} (amqp : Amqp W C H Q B)
    → (State amqp → State amqp)
    → Consumers W B R
    → Exec (State amqp) (List (ConsumeLoop W H Q B) × List (ConsumeLoop W H Q B))
start_core_events_consumer amqp others cs s =
    let (orders, s') = start amqp others cs.order_events s in
    let (core, s'') = start amqp others cs.core_events s' in
    (ok (running orders, running core), s'')
