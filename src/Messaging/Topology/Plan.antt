-- ===== src/Messaging/Topology/Plan.antt =====
-- What `assertTopology` of pkg/messaging/amqp.go asks of the broker, as a list of calls that is known
-- before the first is made.
use quickbite_analytics_serv.Base.{
  String, ◌≡◌, refl, sym, not, ◌&&◌, str_eq, ◌∙◌, Bool, true, false, List, [], ◌∷◌, ◌++◌, map,
  if◌then◌else◌,
}
use quickbite_analytics_serv.Base.Text.{str_eq-nonempty}
use quickbite_analytics_serv.Exec.{Exec, ◌>>◌, pure, >>_assoc, >>-same}
use quickbite_analytics_serv.Messaging.{Amqp, ConsumerOptions}
use quickbite_analytics_serv.Messaging.Topology.{
  wrapped, bind_keys, has_dead_letters, declare_dead_letters, queue_args, assert_topology,
}

pub data Request : Type 0 where
  -- a durable topic exchange
  exchange : String → Request
  -- a durable queue and its arguments
  queue : String → List (String × String) → Request
  -- queue, key, exchange
  binding : String → String → String → Request

-- A request with the text that its error is wrapped in.
abbrev pub Step : Type 0
Step = String × Request

-- The dead-letter exchange and queue, with every key bound.
abbrev pub dead_letter_steps : ConsumerOptions → List Step
dead_letter_steps opts =
    ("declare dlx %q", Request.exchange opts.dead_letter_exchange)
    ∷ ("declare dlq %q", Request.queue opts.dead_letter_queue [])
    ∷ ("bind dlq", Request.binding opts.dead_letter_queue "#" opts.dead_letter_exchange)
    ∷ []

abbrev pub key_step : String → String → String → Step
key_step q ex key = ("bind queue %q -> %q", Request.binding q key ex)

-- Neither text is empty.
abbrev pub both_given : String → String → Bool
both_given String.[] q = false
both_given (String.◌∷◌ c x) String.[] = false
both_given (String.◌∷◌ c x) (String.◌∷◌ d q) = true

-- The exchange; the dead letters if both names are given, which the queue then points to; the queue;
-- and its keys in their order.
abbrev pub plan : ConsumerOptions → List Step
plan opts =
    ("declare exchange %q", Request.exchange opts.exchange)
    ∷ ((if both_given opts.dead_letter_exchange opts.dead_letter_queue
          then dead_letter_steps opts
          else [])
        ++ (
          "declare queue %q",
          Request.queue opts.queue (
              if both_given opts.dead_letter_exchange opts.dead_letter_queue
              then ("x-dead-letter-exchange", opts.dead_letter_exchange) ∷ []
              else []),
        )
          ∷ map (key_step opts.queue opts.exchange) opts.binding_keys)

both_given-eq :
    (opts : ConsumerOptions)
    → has_dead_letters opts ≡ both_given opts.dead_letter_exchange opts.dead_letter_queue
both_given-eq opts = by_names opts.dead_letter_exchange opts.dead_letter_queue
  where
    by_names : (x q : String) → (not (str_eq x "") && not (str_eq q "")) ≡ both_given x q
    by_names String.[] q = refl
    by_names (String.◌∷◌ c x) String.[] = rw (str_eq-nonempty c x) refl
    by_names (String.◌∷◌ c x) (String.◌∷◌ d q) = rw (str_eq-nonempty c x, str_eq-nonempty d q) refl

module _ {W C H Q B : Type 0} (amqp : Amqp W C H Q B) (h : H) where
  abbrev pub ask : Request → Exec W (Unit {0})
  ask (Request.exchange name) = amqp.exchange_declare h name "topic" true
  ask (Request.queue name args) = amqp.queue_declare h name true args
  ask (Request.binding q key ex) = amqp.queue_bind h q key ex

  -- Step by step, up to the first error.
  unfoldable pub carry_out : List Step → Exec W (Unit {0})
  carry_out [] = pure tt
  carry_out ((text, request) ∷ steps) = do wrapped text (ask request); carry_out steps

  bind_keys-eq-carry_out :
      (q ex : String) (keys : List String) (w : W)
      → bind_keys amqp h q ex keys w ≡ carry_out (map (key_step q ex) keys) w
  unfolding bind_keys carry_out
  bind_keys-eq-carry_out q ex [] w = refl
  bind_keys-eq-carry_out q ex (k ∷ keys) w =
      >>-same (wrapped "bind queue %q -> %q" (amqp.queue_bind h q k ex))
        (bind_keys amqp h q ex keys) (carry_out (map (key_step q ex) keys)) w
        (bind_keys-eq-carry_out q ex keys)

  dead_letters-eq-carry_out :
      (opts : ConsumerOptions) (steps : List Step) (w : W)
      → (declare_dead_letters amqp h opts >> carry_out steps) w
        ≡ carry_out (dead_letter_steps opts ++ steps) w
  unfolding carry_out declare_dead_letters
  dead_letters-eq-carry_out opts steps w =
      >>_assoc dlx (dlq >> bind) (carry_out steps) w
      ∙ >>-same dlx ((dlq >> bind) >> carry_out steps) (dlq >> (bind >> carry_out steps)) w
          (λ v. >>_assoc dlq bind (carry_out steps) v)
    where
      dlx : Exec W (Unit {0})
      dlx =
          wrapped "declare dlx %q" (amqp.exchange_declare h opts.dead_letter_exchange "topic" true)

      dlq : Exec W (Unit {0})
      dlq = wrapped "declare dlq %q" (amqp.queue_declare h opts.dead_letter_queue true [])

      bind : Exec W (Unit {0})
      bind =
          wrapped "bind dlq"
            (amqp.queue_bind h opts.dead_letter_queue "#" opts.dead_letter_exchange)

  if_dead_letters-eq-carry_out :
      (opts : ConsumerOptions) (both : Bool) (steps : List Step) (w : W)
      → ((if both then declare_dead_letters amqp h opts else pure tt) >> carry_out steps) w
        ≡ carry_out ((if both then dead_letter_steps opts else []) ++ steps) w
  if_dead_letters-eq-carry_out opts true steps w = dead_letters-eq-carry_out opts steps w
  if_dead_letters-eq-carry_out opts false steps w = refl

  abbrev queue_steps : ConsumerOptions → List Step
  queue_steps opts =
      ("declare queue %q", Request.queue opts.queue (queue_args opts))
      ∷ map (key_step opts.queue opts.exchange) opts.binding_keys

  queue_steps-eq-carry_out :
      (opts : ConsumerOptions) (w : W)
      → (wrapped "declare queue %q" (amqp.queue_declare h opts.queue true (queue_args opts))
            >> bind_keys amqp h opts.queue opts.exchange opts.binding_keys)
          w
        ≡ carry_out (queue_steps opts) w
  unfolding carry_out
  queue_steps-eq-carry_out opts w =
      >>-same (wrapped "declare queue %q" (amqp.queue_declare h opts.queue true (queue_args opts)))
        (bind_keys amqp h opts.queue opts.exchange opts.binding_keys)
        (carry_out (map (key_step opts.queue opts.exchange) opts.binding_keys)) w
        (bind_keys-eq-carry_out opts.queue opts.exchange opts.binding_keys)

  -- `assertTopology` makes the calls of its plan in their order, and stops at the first error.
  pub assert_topology-eq-plan :
      (opts : ConsumerOptions) (w : W) → assert_topology amqp h opts w ≡ carry_out (plan opts) w
  unfolding assert_topology carry_out
  assert_topology-eq-plan opts w = rw (sym (both_given-eq opts)) (
      >>-same exchange (dead_letters >> queue) (carry_out after_exchange) w (λ v.
        >>-same dead_letters queue (carry_out (queue_steps opts)) v (queue_steps-eq-carry_out opts)
        ∙ if_dead_letters-eq-carry_out opts (has_dead_letters opts) (queue_steps opts) v))
    where
      exchange : Exec W (Unit {0})
      exchange = wrapped "declare exchange %q" (amqp.exchange_declare h opts.exchange "topic" true)

      dead_letters : Exec W (Unit {0})
      dead_letters = if has_dead_letters opts then declare_dead_letters amqp h opts else pure tt

      queue : Exec W (Unit {0})
      queue =
          wrapped "declare queue %q" (amqp.queue_declare h opts.queue true (queue_args opts))
          >> bind_keys amqp h opts.queue opts.exchange opts.binding_keys

      after_exchange : List Step
      after_exchange =
          (if has_dead_letters opts then dead_letter_steps opts else []) ++ queue_steps opts
