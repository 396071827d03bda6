-- ===== src/Tests/Messaging.antt =====
-- A broker at a driver whose world counts the calls that declare something and the channels that were
-- closed, and which may refuse the prefetch.
use quickbite_analytics_serv.Base.{
  ℕ, suc, ◌≡◌, refl, Bool, true, false, inr, [], ◌∷◌, ◌++◌, map, if◌then◌else◌,
}
use quickbite_analytics_serv.Errors.{plain, ok, err}
use quickbite_analytics_serv.Exec.{Exec, ◌>>=◌}
use quickbite_analytics_serv.Messaging.{Delivery, Handler, Amqp}
use quickbite_analytics_serv.Messaging.Connection.{Config, State, new_amqp_broker, outside, connect}
use quickbite_analytics_serv.Messaging.Topology.{wrapped, assert_topology}
use quickbite_analytics_serv.Messaging.Topology.Plan.{plan, carry_out, assert_topology-eq-plan}
use quickbite_analytics_serv.Messaging.Client.{
  LoopState, Arrival, declare_topology, declare_on, consume, consume_on, closing, publish, message,
  consume_loop,
}
use quickbite_analytics_serv.Messaging.Reachable.{Reachable, Unclosed, connected_calls}
use quickbite_analytics_serv.Messaging.Channels.{
  IsOwned, handled_each, consume-IsOwned, consume_loop-returns,
}
use quickbite_analytics_serv.Tests.Events.{topology}

pub record Calls : Type 0 where
  pub declared : ℕ
  pub closed : ℕ

abbrev pub idle : Calls
idle = record { declared = 0; closed = 0 }

abbrev declare_one : Exec Calls (Unit {0})
declare_one w = (ok tt, record w { declared = suc w.declared })

abbrev close_one : Exec Calls (Unit {0})
close_one w = (ok tt, record w { closed = suc w.closed })

abbrev pub driver : Bool → Amqp Calls (Unit {0}) (Unit {0}) (Unit {0}) (Unit {0})
driver accepts = record {
  dial = λ url w. (ok tt, w);
  is_closed = λ c w. false;
  channel = λ c w. (ok tt, w);
  notify_close = λ c w. w;
  close_connection = λ c. close_one;
  close_channel = λ h. close_one;
  exchange_declare = λ h name kind durable. declare_one;
  queue_declare = λ h name durable args. declare_one;
  queue_bind = λ h queue key exchange. declare_one;
  qos = λ h n w. (if accepts then ok tt else err (plain "prefetch refused"), w);
  consume = λ h queue w. (ok tt, w);
  publish = λ h exchange key p. declare_one;
}

assert_topology-eq-plan_example :
    assert_topology (driver true) tt topology idle ≡ carry_out (driver true) tt (plan topology) idle
assert_topology-eq-plan_example = assert_topology-eq-plan (driver true) tt topology idle

abbrev cfg : Config
cfg = record { url = "amqp://localhost"; reconnect_min = 0 }

abbrev made : State (driver false)
made = (new_amqp_broker cfg, idle)

abbrev count : Handler Calls (Unit {0})
count d w = (ok tt, record w { declared = suc w.declared })

-- another goroutine connects meanwhile
abbrev others : State (driver false) → State (driver false)
others s = (connect (driver false) s).1

connected_calls_example :
    (c : Unit {0}) × (h : Unit {0}) × (publish
        (driver false)
        others
        "order.events"
        "order.placed"
        tt
        made
      ≡ outside
          ((driver false).publish h "order.events" "order.placed" (message (driver false) tt))
          (others (connect (driver false) made).1))
    × (declare_topology (driver false) others topology made
        ≡ (outside (wrapped "amqp channel" ((driver false).channel c)) >>= λ ch.
              outside (declare_on (driver false) topology ch))
            (others (connect (driver false) made).1))
    × (consume (driver false) others topology count made
        ≡ (outside (wrapped "amqp channel" ((driver false).channel c)) >>= λ ch.
              outside (consume_on (driver false) topology count ch))
            (others (connect (driver false) made).1))
unfolding connect new_amqp_broker
connected_calls_example =
    connected_calls (driver false) cfg others "order.events" "order.placed" tt topology count
      (Reachable.made idle) refl (Unclosed.connects Unclosed.stays)

-- the prefetch is refused, and the channel is closed
consume-IsOwned_example :
    IsOwned (driver false) others topology count made tt (others (connect (driver false) made).1)
unfolding connect new_amqp_broker
consume-IsOwned_example =
    consume-IsOwned (driver false) others topology count made tt
      (others (connect (driver false) made).1) refl refl

abbrev delivery : Delivery Calls (Unit {0})
delivery = record {
  routing_key = "order.placed";
  body = tt;
  ack = λ w. (ok tt, w);
  nack = λ requeue w. (ok tt, w);
}

consume_loop-returns_example :
    consume_loop
      (driver true)
      tt
      count
      (map Arrival.arrived (delivery ∷ delivery ∷ [])
        ++ Arrival.closed ∷ Arrival.arrived delivery ∷ [])
      idle
    ≡ (
      LoopState.returned,
      closing (driver true) tt (handled_each (driver true) count (delivery ∷ delivery ∷ []) idle),
    )
consume_loop-returns_example =
    consume_loop-returns (driver true) tt count (delivery ∷ delivery ∷ []) Arrival.closed
      (Arrival.arrived delivery ∷ []) idle (inr refl)
