-- ===== src/Messaging/Client.antt =====
-- pkg/messaging/amqp.go: `DeclareTopology`, `Consume` with its receive loop, and `Publish`. Each calls
-- `Connect` first, which gives the mutex back; `others` is what other goroutines do to the broker and
-- the world before the connection or the publishing channel is read.
use quickbite_analytics_serv.Base.{String, true, false, Option, none, some, List, [], ◌∷◌}
use quickbite_analytics_serv.Errors.{Err, plain, Result, ok, err}
use quickbite_analytics_serv.Exec.{Exec, ◌>>◌, ◌>>=◌}
use quickbite_analytics_serv.Messaging.{Delivery, ConsumerOptions, Handler, Publishing, Amqp}
use quickbite_analytics_serv.Messaging.Connection.{State, outside, connect}
use quickbite_analytics_serv.Messaging.Topology.{wrapped, assert_topology}

-- The loop that `Consume` starts as a goroutine: its channel, where deliveries arrive, and its
-- handler.
pub record ConsumeLoop (W H Q B : Type 0) : Type 0 where
  pub channel : H
  pub deliveries : Q
  pub handler : Handler W B

-- What the `select` of the loop finds: the context is done, the deliveries are closed, or one has
-- arrived.
pub data Arrival (W B : Type 0) : Type 0 where
  cancelled : Arrival W B
  closed : Arrival W B
  arrived : Delivery W B → Arrival W B

-- Whether the loop has returned, or waits for more.
pub data LoopState : Type 0 where
  waiting : LoopState
  returned : LoopState

-- Go panics where a method of a nil connection reads the connection's fields.
abbrev pub nil_connection : Err
nil_connection = plain "runtime error: invalid memory address or nil pointer dereference"

abbrev pub not_initialised : Err
not_initialised = plain "amqp publish: channel not initialised"

-- An error of the handler is answered by one more nack, whose own error is dropped.
abbrev pub after_handler : {W B : Type 0} → Delivery W B → Result (Unit {0}) → W → W
after_handler d (ok _) w = w
after_handler d (err e) w = (d.nack false w).1

module _ {W C H Q B : Type 0} (amqp : Amqp W C H Q B) where
  -- `defer ch.Close()`, or a close before the return; its error is dropped.
  abbrev pub closing : H → W → W
  closing h w = (amqp.close_channel h w).1

  abbrev pub channel_of : Option C → Exec (State amqp) H
  channel_of none s = (err nil_connection, s)
  channel_of (some c) s = outside (wrapped "amqp channel" (amqp.channel c)) s

  abbrev pub meanwhile : (State amqp → State amqp) → Exec (State amqp) (Unit {0})
  meanwhile others s = (ok tt, others s)

  -- `b.conn.Channel()`
  abbrev pub own_channel : Exec (State amqp) H
  own_channel (b, w) = channel_of b.conn (b, w)

  abbrev pub declare_on : ConsumerOptions → H → Exec W (Unit {0})
  declare_on opts h w = let (r, w') = assert_topology amqp h opts w in (r, closing h w')

  unfoldable pub declare_topology :
      (State amqp → State amqp) → ConsumerOptions → Exec (State amqp) (Unit {0})
  declare_topology others opts = do
    connect amqp
    meanwhile others
    h ← own_channel
    outside (declare_on opts h)

  -- the calls of `Consume` on its own channel
  abbrev pub register : ConsumerOptions → H → Exec W Q
  register opts h = do
    assert_topology amqp h opts
    wrapped "amqp qos" (amqp.qos h opts.prefetch)
    wrapped "amqp consume" (amqp.consume h opts.queue)

  -- Each of their errors closes the channel, and else the loop owns it.
  abbrev pub started : Handler W B → H → Result Q → W → Result (ConsumeLoop W H Q B) × W
  started handler h (err e) w = (err e, closing h w)
  started handler h (ok q) w = (ok (record { channel = h; deliveries = q; handler = handler }), w)

  abbrev pub consume_on : ConsumerOptions → Handler W B → H → Exec W (ConsumeLoop W H Q B)
  consume_on opts handler h w = let (r, w') = register opts h w in started handler h r w'

  -- `Consume`; the goroutine that it starts is its result.
  unfoldable pub consume :
      (State amqp → State amqp)
      → ConsumerOptions
      → Handler W B
      → Exec (State amqp) (ConsumeLoop W H Q B)
  consume others opts handler = do
    connect amqp
    meanwhile others
    h ← own_channel
    outside (consume_on opts handler h)

  -- The receive loop over what it finds, in that order. It closes its channel when it returns.
  unfoldable pub consume_loop : H → Handler W B → List (Arrival W B) → W → LoopState × W
  consume_loop h handler [] w = (LoopState.waiting, w)
  consume_loop h handler (Arrival.cancelled ∷ _) w = (LoopState.returned, closing h w)
  consume_loop h handler (Arrival.closed ∷ _) w = (LoopState.returned, closing h w)
  consume_loop h handler (Arrival.arrived d ∷ rest) w =
      let (answer, w') = handler d w in consume_loop h handler rest (after_handler d answer w')

  abbrev pub message : B → Publishing B
  message body = record { content_type = "application/json"; body = body; persistent = true }

  abbrev pub publish_to : Option H → String → String → B → Exec (State amqp) (Unit {0})
  publish_to none exchange key body s = (err not_initialised, s)
  publish_to (some h) exchange key body s = outside (amqp.publish h exchange key (message body)) s

  abbrev pub publish_on : String → String → B → Exec (State amqp) (Unit {0})
  publish_on exchange key body (b, w) = publish_to b.pub_ch exchange key body (b, w)

  unfoldable pub publish :
      (State amqp → State amqp) → String → String → B → Exec (State amqp) (Unit {0})
  publish others exchange key body = do connect amqp; meanwhile others; publish_on exchange key body
