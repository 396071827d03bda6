-- ===== src/Messaging/Reachable.antt =====
-- The states that an `AMQPBroker` of pkg/messaging/amqp.go can be in. Goroutines call its operations
-- at once, so a step is a critical section of the mutex, or something that leaves the broker as it is.
use quickbite_analytics_serv.Base.{
  String, ◌≡◌, refl, true, false, ◌⊎◌, inl, inr, Option, none, some, Bool-cases,
}
use quickbite_analytics_serv.Errors.{Result, ok, err}
use quickbite_analytics_serv.Exec.{Exec, continue, ◌>>=◌}
use quickbite_analytics_serv.Messaging.{ConsumerOptions, Handler, Amqp}
use quickbite_analytics_serv.Messaging.Connection.{
  Config, AmqpBroker, State, new_amqp_broker, outside, is_alive, keep, open_channel, connect, close,
}
use quickbite_analytics_serv.Messaging.Topology.{wrapped}
use quickbite_analytics_serv.Messaging.Client.{
  own_channel, channel_of, meanwhile, declare_topology, declare_on, consume, consume_on, publish,
  message,
}

module _ {W C H Q B : Type 0} (amqp : Amqp W C H Q B) where
  pub data Step : State amqp → State amqp → Type 0 where
    connects : (s : State amqp) → Step s (connect amqp s).1
    closes : (s : State amqp) → Step s (close amqp s).1
    -- a call of the driver, and what happens outside of the process, such as the loss of the connection
    changes : (b : AmqpBroker C H) (w w' : W) → Step (b, w) (b, w')

  pub data Reachable (cfg : Config) : State amqp → Type 0 where
    made : (w : W) → Reachable cfg (new_amqp_broker cfg, w)
    later : {s t : State amqp} → Reachable cfg s → Step s t → Reachable cfg t

  -- Steps of which none is a `Close`.
  pub data Unclosed (s : State amqp) : State amqp → Type 0 where
    stays : Unclosed s s
    connects : {t : State amqp} → Unclosed s t → Unclosed s (connect amqp t).1
    changes : {b : AmqpBroker C H} {w : W} (w' : W) → Unclosed s (b, w) → Unclosed s (b, w')

  abbrev pub Ready : AmqpBroker C H → Type 0
  Ready b = (c : C) × (h : H) × (b.conn ≡ some c) × (b.pub_ch ≡ some h)

  -- There is a connection exactly if there is a channel to publish on.
  abbrev pub Paired : AmqpBroker C H → Type 0
  Paired b = ((b.conn ≡ none) × (b.pub_ch ≡ none)) ⊎ Ready b

  -- What holds of a broker, and of every broker with a connection and a channel, holds after
  -- `Connect`.
  Kept : (AmqpBroker C H → Type 0) → Type 0
  Kept P = (c : C) (h : H) (b : AmqpBroker C H) → P (record b { conn = some c; pub_ch = some h })

  keep-Kept :
      (P : AmqpBroker C H → Type 0) (set : Kept P) (c : C) (opened : Result H) (b : AmqpBroker C H)
      (w : W)
      → P b
      → P (keep amqp c opened b w).1.0
  unfolding Kept
  keep-Kept P set c (err e) b w p = p
  keep-Kept P set c (ok h) b w p = set c h b

  open_channel-Kept :
      (P : AmqpBroker C H → Type 0) (set : Kept P) (dialled : Result C) (b : AmqpBroker C H) (w : W)
      → P b
      → P (open_channel amqp dialled b w).1.0
  open_channel-Kept P set (err e) b w p = p
  open_channel-Kept P set (ok c) b w p =
      keep-Kept P set c (amqp.channel c w).0 b (amqp.channel c w).1 p

  connect-Kept :
      (P : AmqpBroker C H → Type 0) (set : Kept P) (s : State amqp) → P s.0 → P (connect amqp s).1.0
  unfolding connect
  connect-Kept P set (b, w) p = elim (Bool-cases (is_alive amqp b.conn w)) [
    | inl alive ↦ rw alive p
    | inr lost ↦
        rw lost (open_channel-Kept P set (amqp.dial b.cfg.url w).0 b (amqp.dial b.cfg.url w).1 p)
  ]

  keep-Ready :
      (c : C) (opened : Result H) (b : AmqpBroker C H) (w : W)
      → (keep amqp c opened b w).0 ≡ ok tt
      → Ready (keep amqp c opened b w).1.0
  keep-Ready c (err e) b w done = cc
  keep-Ready c (ok h) b w done = (c, h, refl, refl)

  open_channel-Ready :
      (dialled : Result C) (b : AmqpBroker C H) (w : W)
      → (open_channel amqp dialled b w).0 ≡ ok tt
      → Ready (open_channel amqp dialled b w).1.0
  open_channel-Ready (err e) b w done = cc
  open_channel-Ready (ok c) b w done = keep-Ready c (amqp.channel c w).0 b (amqp.channel c w).1 done

  alive-Ready : (b : AmqpBroker C H) (w : W) → Paired b → is_alive amqp b.conn w ≡ true → Ready b
  alive-Ready b w (inl unset) alive = let impossible : false ≡ true = rw unset.0 at alive in cc
  alive-Ready b w (inr ready) alive = ready

  connect-Ready :
      (s : State amqp) → Paired s.0 → (connect amqp s).0 ≡ ok tt → Ready (connect amqp s).1.0
  unfolding connect
  connect-Ready (b, w) p done = elim (Bool-cases (is_alive amqp b.conn w)) [
    | inl alive ↦ rw alive (alive-Ready b w p alive)
    | inr lost ↦
        rw lost (
          open_channel-Ready (amqp.dial b.cfg.url w).0 b (amqp.dial b.cfg.url w).1
            (rw lost at done))
  ]

  Step-Paired : {s t : State amqp} → Step s t → Paired s.0 → Paired t.0
  unfolding close Kept
  Step-Paired (Step.connects s) p = connect-Kept Paired (λ c h b. inr (c, h, refl, refl)) s p
  Step-Paired (Step.closes (b, w)) p = inl (refl, refl)
  Step-Paired (Step.changes b w w') p = p

  -- In every state that the broker can be in, there is a connection exactly if there is a channel to
  -- publish on.
  pub Reachable-Paired : (cfg : Config) {s : State amqp} → Reachable cfg s → Paired s.0
  unfolding new_amqp_broker
  Reachable-Paired cfg (Reachable.made w) = inl (refl, refl)
  Reachable-Paired cfg (Reachable.later r step) = Step-Paired step (Reachable-Paired cfg r)

  Unclosed-Ready : {s t : State amqp} → Unclosed s t → Ready s.0 → Ready t.0
  unfolding Kept
  Unclosed-Ready Unclosed.stays ready = ready
  Unclosed-Ready (Unclosed.connects {t = t} r) ready =
      connect-Kept Ready (λ c h b. (c, h, refl, refl)) t (Unclosed-Ready r ready)
  Unclosed-Ready (Unclosed.changes w' r) ready = Unclosed-Ready r ready

  -- Let `Connect` answer with no error in a state that the broker can be in, and let other goroutines
  -- do anything but `Close` it before its fields are read. Then `Publish` is the driver's call on a
  -- channel, and `DeclareTopology` and `Consume` go on with a channel that a connection is asked for:
  -- neither is nil.
  pub connected_calls :
      (cfg : Config) {s : State amqp} (others : State amqp → State amqp) (exchange key : String)
      (body : B) (opts : ConsumerOptions) (handler : Handler W B)
      → Reachable cfg s
      → (connect amqp s).0 ≡ ok tt
      → Unclosed (connect amqp s).1 (others (connect amqp s).1)
      → (c : C) × (h : H) × (publish amqp others exchange key body s
          ≡ outside (amqp.publish h exchange key (message amqp body)) (others (connect amqp s).1))
        × (declare_topology amqp others opts s
            ≡ (outside (wrapped "amqp channel" (amqp.channel c)) >>= λ ch.
                  outside (declare_on amqp opts ch))
                (others (connect amqp s).1))
        × (consume amqp others opts handler s
            ≡ (outside (wrapped "amqp channel" (amqp.channel c)) >>= λ ch.
                  outside (consume_on amqp opts handler ch))
                (others (connect amqp s).1))
  unfolding publish declare_topology consume
  connected_calls cfg {s} others exchange key body opts handler r done unclosed =
      let (c, h, dialled, opened) =
        Unclosed-Ready unclosed (connect-Ready s (Reachable-Paired cfg r) done) in
      (c, h, rw done (rw opened refl), rw done (rw dialled refl), rw done (rw dialled refl))

  module _ (cfg : Config) where
    -- A call that leads from states that the broker can be in to such states.
    abbrev pub Stays : {A : Type 0} → Exec (State amqp) A → Type 0
    Stays m = (s : State amqp) → Reachable cfg s → Reachable cfg (m s).1

    >>=-Stays :
        {A D : Type 0} (m : Exec (State amqp) A) (f : A → Exec (State amqp) D)
        → Stays m
        → ((a : A) → Stays (f a))
        → Stays (m >>= f)
    >>=-Stays {A = A} m f first rest s p = continue-Stays (m s).0 (m s).1 (first s p)
      where
        continue-Stays :
            (r : Result A) (t : State amqp) → Reachable cfg t → Reachable cfg (continue r f t).1
        continue-Stays (ok a) t q = rest a t q
        continue-Stays (err e) t q = q

    outside-Stays : {A : Type 0} (m : Exec W A) → Stays (outside m)
    outside-Stays m (b, w) p = Reachable.later p (Step.changes b w (m w).1)

    connect-Stays : Stays (connect amqp)
    connect-Stays s p = Reachable.later p (Step.connects s)

    channel_of-Stays : (c : Option C) → Stays (channel_of amqp c)
    channel_of-Stays none s p = p
    channel_of-Stays (some c) s p = outside-Stays (wrapped "amqp channel" (amqp.channel c)) s p

    on_channel-Stays :
        {A : Type 0} (others : State amqp → State amqp) (f : H → Exec W A)
        → ((s : State amqp) → Reachable cfg s → Reachable cfg (others s))
        → Stays (
            connect amqp >>= λ _.
            meanwhile amqp others >>= λ _. own_channel amqp >>= λ h. outside (f h))
    on_channel-Stays {A} others f fair =
        >>=-Stays (connect amqp) (λ _. with_others) connect-Stays
          λ _.
            >>=-Stays (meanwhile amqp others) (λ _. on_channel) fair
              λ _.
                >>=-Stays (own_channel amqp) (λ h. outside (f h))
                  (λ (b, w) p. channel_of-Stays b.conn (b, w) p) (λ h. outside-Stays (f h))
      where
        on_channel : Exec (State amqp) A
        on_channel = own_channel amqp >>= λ h. outside (f h)

        with_others : Exec (State amqp) A
        with_others = meanwhile amqp others >>= λ _. on_channel

    -- `DeclareTopology` and `Consume` lead from states that the broker can be in to such states, if
    -- what others do meanwhile does.
    pub declare_topology-Stays :
        (others : State amqp → State amqp) (opts : ConsumerOptions)
        → ((s : State amqp) → Reachable cfg s → Reachable cfg (others s))
        → Stays (declare_topology amqp others opts)
    unfolding declare_topology
    declare_topology-Stays others opts = on_channel-Stays others (declare_on amqp opts)

    pub consume-Stays :
        (others : State amqp → State amqp) (opts : ConsumerOptions) (handler : Handler W B)
        → ((s : State amqp) → Reachable cfg s → Reachable cfg (others s))
        → Stays (consume amqp others opts handler)
    unfolding consume
    consume-Stays others opts handler = on_channel-Stays others (consume_on amqp opts handler)
