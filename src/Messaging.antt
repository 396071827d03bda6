-- ===== src/Messaging.antt =====
-- pkg/messaging/types.go, and the calls of amqp091 that pkg/messaging/amqp.go makes, which are a
-- parameter.
pub mod Connection
pub mod Topology
pub mod Client
pub mod Reachable
pub mod Channels
use quickbite_analytics_serv.Base.{String, Bool, List}
use quickbite_analytics_serv.Base.Int.{ℤ}
use quickbite_analytics_serv.Exec.{Exec}

-- `Delivery`; `B` is the body's bytes.
pub record Delivery (W B : Type 0) : Type 0 where
  pub routing_key : String
  pub body : B
  pub ack : Exec W (Unit {0})
  pub nack : Bool → Exec W (Unit {0})

pub record ConsumerOptions : Type 0 where
  pub exchange : String
  pub queue : String
  pub binding_keys : List String
  pub dead_letter_exchange : String
  pub dead_letter_queue : String
  pub prefetch : ℤ

abbrev pub Handler : Type 0 → Type 0 → Type 0
Handler W B = Delivery W B → Exec W (Unit {0})

-- `amqp.Publishing`
pub record Publishing (B : Type 0) : Type 0 where
  pub content_type : String
  pub body : B
  pub persistent : Bool

-- amqp091: `C` is a connection, `H` a channel, and `Q` the Go channel that deliveries arrive on. The
-- flags that the code never sets (auto-delete, internal, exclusive, no-wait, mandatory, immediate,
-- auto-ack) are left out.
pub record Amqp (W C H Q B : Type 0) : Type 0 where
  pub dial : String → Exec W C
  pub is_closed : C → W → Bool
  pub channel : C → Exec W H
  pub notify_close : C → W → W
  pub close_connection : C → Exec W (Unit {0})
  pub close_channel : H → Exec W (Unit {0})
  -- name, kind, durable
  pub exchange_declare : H → String → String → Bool → Exec W (Unit {0})
  -- name, durable, arguments
  pub queue_declare : H → String → Bool → List (String × String) → Exec W (Unit {0})
  -- queue, key, exchange
  pub queue_bind : H → String → String → String → Exec W (Unit {0})
  pub qos : H → ℤ → Exec W (Unit {0})
  pub consume : H → String → Exec W Q
  -- exchange, routing key
  pub publish : H → String → String → Publishing B → Exec W (Unit {0})
