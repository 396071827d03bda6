-- ===== src/Events/Stream.antt =====
-- The receive loop of pkg/messaging/amqp.go with the consumer of lib/coreevents/consumer.go over the
-- handlers and the service: what a stream of deliveries with repetitions comes to.
use quickbite_analytics_serv.Base.{
  String, ◌≡◌, refl, sym, ap, ◌∙◌, Bool, true, false, ◌||◌, inl, inr, Bool-cases, Option, none,
  some, List, [], ◌∷◌, map, str_eq, All, bool_conflict,
}
use quickbite_analytics_serv.Base.Int.{◌+ℤ◌, int_laws, add-zero_ℤ}
use quickbite_analytics_serv.Errors.{Result, ok, err}
use quickbite_analytics_serv.Exec.{Exec}
use quickbite_analytics_serv.Mongo.Values.{Time}
use quickbite_analytics_serv.Mongo.Rows.{assoc, Counter}
use quickbite_analytics_serv.Messaging.{Delivery, Amqp}
use quickbite_analytics_serv.Messaging.Client.{Arrival, after_handler, consume_loop}
use quickbite_analytics_serv.Repository.Interfaces.{AnalyticsService, RepositoryLaws}
use quickbite_analytics_serv.Rows.{Row, total_for, total_for-nil, total_for-append}
use quickbite_analytics_serv.Events.Payloads.{Envelope, Decoders}
use quickbite_analytics_serv.Events.Handlers.{EventHandler, build}
use quickbite_analytics_serv.Events.Effects.{event_service, effect, handled_by}
use quickbite_analytics_serv.Events.Effects.Laws.{effects_of, handled_by-Adds}
use quickbite_analytics_serv.Events.Consumer.{Consumer, settle, run_handler, after_mark, dispatch}
use quickbite_analytics_serv.Events.Consumer.Laws.{
  DeduperLaws, Named, dispatch-eq-after_mark, dispatch_duplicate,
}

-- The first event of each id that was not seen before.
abbrev pub firsts : {R : Type 0} → (String → Bool) → List (Envelope R) → List (Envelope R)
firsts seen [] = []
firsts seen (env ∷ rest) = elim (seen env.event_id) [
  | true ↦ firsts seen rest
  | false ↦ env ∷ firsts (λ j. str_eq env.event_id j || seen j) rest
]

-- The deliveries as the receive loop gets them, and their events.
abbrev pub arrivals : {W B R : Type 0} → List (Delivery W B × Envelope R) → List (Arrival W B)
arrivals received = map (λ x. Arrival.arrived x.0) received

abbrev pub events_of : {W B R : Type 0} → List (Delivery W B × Envelope R) → List (Envelope R)
events_of received = map (λ x. x.1) received

module _ {W B R : Type 0} (c : Consumer W B R) (marks : DeduperLaws c.deduper)
    (s : AnalyticsService W) (laws : RepositoryLaws s) (utc_date : Time → String)
    (json : Decoders R) where
  -- the handler of an event in the map of handlers
  abbrev pub handled : Envelope R → Exec W (Unit {0})
  handled env = handled_by (assoc env.event_type (build json (event_service s utc_date))) env

  -- The consumer holds the handlers of the orders, its deduper answers, and a marker is no part
  -- of an aggregate.
  pub record Wired : Type 0 where
    pub finds : (t : String) → assoc t c.handlers ≡ assoc t (build json (event_service s utc_date))
    pub answers : (i : String) (w : W) → (b : Bool) × ((c.deduper.mark_seen i w).0 ≡ ok b)
    pub mark_counts :
        (i : String) (w : W) (r : Row) (k : Counter)
        → laws.counted (c.deduper.mark_seen i w).1 r k ≡ laws.counted w r k

  -- A settlement touches neither markers nor aggregates.
  abbrev pub Quiet : Exec W (Unit {0}) → Type 0
  Quiet m =
      (w : W)
      → ((r : Row) (k : Counter) → laws.counted (m w).1 r k ≡ laws.counted w r k)
        × ((j : String) → marks.marked (m w).1 j ≡ marks.marked w j)

  -- A delivery that can be read, whose event its handler accepts without touching a marker, and that
  -- is settled quietly.
  pub record Accepted (received : Delivery W B × Envelope R) : Type 0 where
    pub named : Named c marks received.0 received.1
    pub succeeds : (w : W) → (handled received.1 w).0 ≡ ok tt
    pub handler_marks :
        (w : W) (j : String) → marks.marked (handled received.1 w).1 j ≡ marks.marked w j
    pub ack_quiet : Quiet received.0.ack
    pub nack_quiet : Quiet (received.0.nack false)

  module _ (wired : Wired) (d : Delivery W B) (env : Envelope R) (a : Accepted (d, env)) where
    run_handler-ok :
        (o : Option (EventHandler W R)) (w : W)
        → (handled_by o env w).0 ≡ ok tt
        → run_handler c d env o w ≡ d.ack (handled_by o env w).1
    unfolding run_handler settle
    run_handler-ok none w h = refl
    run_handler-ok (some f) w h = rw (h, settle) refl

    -- the world in which the handler of a new event starts
    abbrev start : W → W
    start w = (c.deduper.mark_seen env.event_id w).1

    unmarked-fresh :
        (w : W)
        → marks.marked w env.event_id ≡ false
        → (c.deduper.mark_seen env.event_id w).0 ≡ ok true
    unmarked-fresh w unmarked =
        let (b, answered) = wired.answers env.event_id w in
        elim (Bool-cases b) [
          | inl first ↦ answered ∙ ap ok first
          | inr again ↦
              bool_conflict (marks.marked w env.event_id)
                (marks.mark_refused env.event_id w (answered ∙ ap ok again)) unmarked
        ]

    dispatch-new :
        (w : W)
        → marks.marked w env.event_id ≡ false
        → dispatch c d w ≡ d.ack (handled env (start w)).1
    unfolding after_mark
    dispatch-new w unmarked =
        dispatch-eq-after_mark c marks d env w a.named
        ∙ rw (unmarked-fresh w unmarked, wired.finds env.event_type)
            (run_handler-ok (assoc env.event_type (build json (event_service s utc_date))) (start w)
              (a.succeeds (start w)))

    -- what the receive loop leaves after the delivery
    abbrev after : W → W
    after w = after_handler d (dispatch c d w).0 (dispatch c d w).1

    after_handler-Quiet :
        (answer : Result (Unit {0})) (w : W)
        → ((r : Row) (k : Counter)
            → laws.counted (after_handler d answer w) r k ≡ laws.counted w r k)
          × ((j : String) → marks.marked (after_handler d answer w) j ≡ marks.marked w j)
    after_handler-Quiet (ok _) w = (λ r k. refl, λ j. refl)
    after_handler-Quiet (err e) w = a.nack_quiet w

    acked-Quiet :
        (v : W)
        → ((r : Row) (k : Counter)
            → laws.counted (after_handler d (d.ack v).0 (d.ack v).1) r k ≡ laws.counted v r k)
          × ((j : String)
              → marks.marked (after_handler d (d.ack v).0 (d.ack v).1) j ≡ marks.marked v j)
    acked-Quiet v =
        let (counts, kept) = after_handler-Quiet (d.ack v).0 (d.ack v).1 in
        (λ r k. counts r k ∙ (a.ack_quiet v).0 r k, λ j. kept j ∙ (a.ack_quiet v).1 j)

    after-new :
        (w : W)
        → marks.marked w env.event_id ≡ false
        → ((r : Row) (k : Counter)
            → laws.counted (after w) r k
              ≡ laws.counted w r k +ℤ total_for r k (effect json utc_date env))
          × ((j : String) → marks.marked (after w) j ≡ (str_eq env.event_id j || marks.marked w j))
    after-new w unmarked = rw (dispatch-new w unmarked) (
      (λ r k.
          (acked-Quiet (handled env (start w)).1).0 r k
          ∙ handled_by-Adds s laws utc_date json env (start w) (a.succeeds (start w)) r k
          ∙ ap (λ n. n +ℤ total_for r k (effect json utc_date env))
              (wired.mark_counts env.event_id w r k)),
      (λ j.
          (acked-Quiet (handled env (start w)).1).1 j
          ∙ a.handler_marks (start w) j
          ∙ (marks.mark_fresh env.event_id w (unmarked-fresh w unmarked)).1 j),
    )

    after-seen :
        (w : W)
        → marks.marked w env.event_id ≡ true
        → ((r : Row) (k : Counter) → laws.counted (after w) r k ≡ laws.counted w r k)
          × ((j : String) → marks.marked (after w) j ≡ marks.marked w j)
    after-seen w seen = rw (dispatch_duplicate c marks d env w a.named seen) (acked-Quiet w)

  -- the markers once the event is marked as well
  abbrev now : Envelope R → W → String → Bool
  now env w j = str_eq env.event_id j || marks.marked w j

  firsts-same :
      (seen seen' : String → Bool)
      → ((j : String) → seen j ≡ seen' j)
      → (envs : List (Envelope R)) → firsts seen envs ≡ firsts seen' envs
  firsts-same seen seen' same envs = ap (λ f. firsts f envs) (λ i j. same j i)

  -- Let a consumer hold the handlers of the orders, its deduper always answer, and its deliveries be
  -- readable, accepted by their handlers and settled quietly. What the receive loop then adds to each
  -- counter is the sum of the effects of the events that were not seen before, each counted once,
  -- however often and between which others it was delivered.
  pub stream_counted :
      {C H Q : Type 0} (amqp : Amqp W C H Q B) (h : H)
      → Wired
      → (received : List (Delivery W B × Envelope R)) (w : W) → All Accepted received
      → (r : Row) (k : Counter)
      → laws.counted (consume_loop amqp h (dispatch c) (arrivals received) w).1 r k
        ≡ laws.counted w r k
          +ℤ total_for r k
              (effects_of s laws utc_date json (firsts (marks.marked w) (events_of received)))
  unfolding consume_loop
  stream_counted amqp h wired [] w tt r k = rw (total_for-nil r k) (sym (add-zero_ℤ _))
  stream_counted amqp h wired ((d, env) ∷ rest) w (a, all) r k =
      elim (Bool-cases (marks.marked w env.event_id)) [
        | inl seen ↦
            let (counts, kept) = after-seen wired d env a w seen in
            rw seen (
              stream_counted amqp h wired rest (after wired d env a w) all r k
              ∙ rw
                  (
                    counts r k,
                    firsts-same (marks.marked (after wired d env a w)) (marks.marked w) kept
                        (events_of rest),
                  )
                  refl)
        | inr unmarked ↦
            let (counts, kept) = after-new wired d env a w unmarked in
            rw unmarked (
              stream_counted amqp h wired rest (after wired d env a w) all r k
              ∙ rw
                  (
                    counts r k,
                    firsts-same (marks.marked (after wired d env a w)) (now env w) kept
                        (events_of rest),
                    total_for-append r k (effect json utc_date env)
                        (effects_of s laws utc_date json (firsts (now env w) (events_of rest))),
                  )
                  (omega int_laws))
      ]
