-- ===== src/Messaging/Connection.antt =====
-- pkg/messaging/amqp.go: the state of `AMQPBroker`, `Connect` and `Close`. The two hold the mutex, so
-- each is one step.
use quickbite_analytics_serv.Base.{
  ℕ, ◌==◌, String, Bool, false, not, Option, none, some, if◌then◌else◌,
}
use quickbite_analytics_serv.Errors.{wrap, Result, ok, err}
use quickbite_analytics_serv.Exec.{Exec}
use quickbite_analytics_serv.Messaging.{Amqp}

-- `ReconnectMin` is in milliseconds.
pub record Config : Type 0 where
  pub url : String
  pub reconnect_min : ℕ

-- `AMQPBroker`; the channel that `NotifyClose` writes to is read by nobody, and is left out.
pub record AmqpBroker (C H : Type 0) : Type 0 where
  pub cfg : Config
  pub conn : Option C
  pub pub_ch : Option H

abbrev with_default : Config → Config
with_default cfg = if cfg.reconnect_min == 0 then record cfg { reconnect_min = 500 } else cfg

-- `NewAMQPBroker`
unfoldable pub new_amqp_broker : {C H : Type 0} → Config → AmqpBroker C H
new_amqp_broker cfg = record { cfg = with_default cfg; conn = none; pub_ch = none }

-- A call of the driver leaves the broker as it is.
abbrev pub outside : {S W A : Type 0} → Exec W A → Exec (S × W) A
outside m (b, w) = let (r, w') = m w in (r, (b, w'))

-- the first of two errors
abbrev pub first_err : Result (Unit {0}) → Result (Unit {0}) → Result (Unit {0})
first_err (err e) r = err e
first_err (ok _) r = r

module _ {W C H Q B : Type 0} (amqp : Amqp W C H Q B) where
  abbrev pub State : Type 0
  State = AmqpBroker C H × W

  abbrev pub is_alive : Option C → W → Bool
  is_alive none w = false
  is_alive (some c) w = not (amqp.is_closed c w)

  -- A connection without a channel is closed again.
  abbrev pub keep : C → Result H → AmqpBroker C H → W → Result (Unit {0}) × State
  keep c (err e) b w = (err (wrap "amqp channel" e), (b, (amqp.close_connection c w).1))
  keep c (ok h) b w = (ok tt, (record b { conn = some c; pub_ch = some h }, amqp.notify_close c w))

  abbrev pub open_channel : Result C → AmqpBroker C H → W → Result (Unit {0}) × State
  open_channel (err e) b w = (err (wrap "amqp dial" e), (b, w))
  open_channel (ok c) b w = let (opened, w') = amqp.channel c w in keep c opened b w'

  unfoldable pub connect : Exec State (Unit {0})
  connect (b, w) =
      if is_alive b.conn w
      then (ok tt, (b, w))
      else (let (dialled, w') = amqp.dial b.cfg.url w in open_channel dialled b w')

  abbrev close_publisher : Option H → Exec W (Unit {0})
  close_publisher none w = (ok tt, w)
  close_publisher (some h) w = amqp.close_channel h w

  abbrev close_dialled : Option C → Exec W (Unit {0})
  close_dialled none w = (ok tt, w)
  close_dialled (some c) w = amqp.close_connection c w

  unfoldable pub close : Exec State (Unit {0})
  close (b, w) =
      let (first, w') = close_publisher b.pub_ch w in
      let (second, w'') = close_dialled b.conn w' in
      (first_err first second, (record b { conn = none; pub_ch = none }, w''))
