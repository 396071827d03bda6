-- ===== src/Messaging/Channels.antt =====
-- The channel that `Consume` of pkg/messaging/amqp.go opens: who closes it, and when.
use quickbite_analytics_serv.Base.{
  false, ◌≡◌, refl, ap, ◌∙◌, ◌⊎◌, inl, inr, List, [], ◌∷◌, ◌++◌, map,
}
use quickbite_analytics_serv.Errors.{Err, Result, ok, err, Result-cases}
use quickbite_analytics_serv.Messaging.{Delivery, ConsumerOptions, Handler, Amqp}
use quickbite_analytics_serv.Messaging.Connection.{State, outside, connect}
use quickbite_analytics_serv.Messaging.Client.{
  LoopState, Arrival, after_handler, closing, own_channel, register, started, consume, consume_on,
  consume_loop,
}

module _ {W C H Q B : Type 0} (amqp : Amqp W C H Q B) where
  -- The channel `h` is closed after the calls on it failed, or the loop that was started owns it.
  abbrev pub IsOwned :
      (State amqp → State amqp)
      → ConsumerOptions
      → Handler W B
      → State amqp
      → H
      → State amqp
      → Type 0
  IsOwned others opts handler s h v =
      ((e : Err) × (consume amqp others opts handler s
          ≡ (err e, (v.0, closing amqp h (register amqp opts h v.1).1))))
      ⊎ ((q : Q) × ((register amqp opts h v.1).0 ≡ ok q)
          × (consume amqp others opts handler s ≡ (
            ok (record { channel = h; deliveries = q; handler = handler }),
            (v.0, (register amqp opts h v.1).1),
          )))

  consume_on-eq :
      (others : State amqp → State amqp) (opts : ConsumerOptions) (handler : Handler W B)
      (s : State amqp) (h : H) (v : State amqp)
      → (connect amqp s).0 ≡ ok tt
      → own_channel amqp (others (connect amqp s).1) ≡ (ok h, v)
      → consume amqp others opts handler s ≡ outside (consume_on amqp opts handler h) v
  unfolding consume
  consume_on-eq others opts handler s h v done opened = rw done (rw opened refl)

  -- Whatever other goroutines do to the broker after its `Connect`, a `Consume` that then got a channel
  -- `h` from the connection either answers an error, and closing
  -- `h` is the last thing it does, or it starts the loop on `h` with its handler, and leaves `h` open.
  pub consume-IsOwned :
      (others : State amqp → State amqp) (opts : ConsumerOptions) (handler : Handler W B)
      (s : State amqp) (h : H) (v : State amqp)
      → (connect amqp s).0 ≡ ok tt
      → own_channel amqp (others (connect amqp s).1) ≡ (ok h, v)
      → IsOwned others opts handler s h v
  consume-IsOwned others opts handler s h v done opened =
      elim (Result-cases (register amqp opts h v.1).0) [
        | inl (q, registered) ↦ inr (q, registered, consume-eq ∙ rw (registered, started) refl)
        | inr (e, failed) ↦ inl (e, consume-eq ∙ rw (failed, started) refl)
      ]
    where
      consume-eq : consume amqp others opts handler s ≡ outside (consume_on amqp opts handler h) v
      consume-eq = consume_on-eq others opts handler s h v done opened

  -- The handler on each delivery in turn: what it leaves, and a nack with no requeue if it failed.
  abbrev pub handled_each : Handler W B → List (Delivery W B) → W → W
  handled_each handler [] w = w
  handled_each handler (d ∷ ds) w = elim (handler d w).0 [
    | ok _ ↦ handled_each handler ds (handler d w).1
    | err _ ↦ handled_each handler ds (d.nack false (handler d w).1).1
  ]

  -- The receive loop returns once its context is done or its deliveries are closed. What it leaves is
  -- what its handler leaves of all that was delivered before, one after the other in their order, each
  -- one that failed nacked with no requeue, and of nothing that comes after; its channel is closed
  -- last.
  pub consume_loop-returns :
      (h : H) (handler : Handler W B) (ds : List (Delivery W B)) (stop : Arrival W B)
      (rest : List (Arrival W B)) (w : W)
      → (stop ≡ Arrival.cancelled) ⊎ (stop ≡ Arrival.closed)
      → consume_loop amqp h handler (map Arrival.arrived ds ++ stop ∷ rest) w
        ≡ (LoopState.returned, closing amqp h (handled_each handler ds w))
  unfolding consume_loop
  consume_loop-returns h handler [] stop rest w (inl same) = rw same refl
  consume_loop-returns h handler [] stop rest w (inr same) = rw same refl
  consume_loop-returns h handler (d ∷ ds) stop rest w why =
      consume_loop-returns h handler ds stop rest (after_handler d (handler d w).0 (handler d w).1)
        why
      ∙ ap (λ v. (LoopState.returned, closing amqp h v)) (by_answer (handler d w).0 (handler d w).1)
    where
      by_answer :
          (r : Result (Unit {0})) (v : W)
          → handled_each handler ds (after_handler d r v) ≡ elim r [
            | ok _ ↦ handled_each handler ds v
            | err _ ↦ handled_each handler ds (d.nack false v).1
          ]
      by_answer (ok _) v = refl
      by_answer (err e) v = refl
