-- ===== src/Messaging/Topology.antt =====
-- pkg/messaging/amqp.go: `assertTopology`.
pub mod Plan
use quickbite_analytics_serv.Base.{
  String, Bool, true, ◌&&◌, not, List, [], ◌∷◌, str_eq, if◌then◌else◌,
}
use quickbite_analytics_serv.Errors.{wrap, Result, ok, err}
use quickbite_analytics_serv.Exec.{Exec, ◌>>◌, pure}
use quickbite_analytics_serv.Messaging.{Amqp, ConsumerOptions}

abbrev wrap_err : {A : Type 0} → String → Result A → Result A
wrap_err text (ok a) = ok a
wrap_err text (err e) = err (wrap text e)

-- `fmt.Errorf(text, err)` around a call
abbrev pub wrapped : {W A : Type 0} → String → Exec W A → Exec W A
wrapped text m w = let (r, w') = m w in (wrap_err text r, w')

abbrev pub has_dead_letters : ConsumerOptions → Bool
has_dead_letters opts =
    not (str_eq opts.dead_letter_exchange "") && not (str_eq opts.dead_letter_queue "")

abbrev pub queue_args : ConsumerOptions → List (String × String)
queue_args opts =
    if has_dead_letters opts then ("x-dead-letter-exchange", opts.dead_letter_exchange) ∷ [] else []

module _ {W C H Q B : Type 0} (amqp : Amqp W C H Q B) where
  unfoldable pub bind_keys : H → String → String → List String → Exec W (Unit {0})
  bind_keys h queue exchange [] = pure tt
  bind_keys h queue exchange (k ∷ keys) = do
    wrapped "bind queue %q -> %q" (amqp.queue_bind h queue k exchange)
    bind_keys h queue exchange keys

  unfoldable pub declare_dead_letters : H → ConsumerOptions → Exec W (Unit {0})
  declare_dead_letters h opts = do
    wrapped "declare dlx %q" (amqp.exchange_declare h opts.dead_letter_exchange "topic" true)
    wrapped "declare dlq %q" (amqp.queue_declare h opts.dead_letter_queue true [])
    wrapped "bind dlq" (amqp.queue_bind h opts.dead_letter_queue "#" opts.dead_letter_exchange)

  unfoldable pub assert_topology : H → ConsumerOptions → Exec W (Unit {0})
  unfolding bind_keys declare_dead_letters
  assert_topology h opts = do
    wrapped "declare exchange %q" (amqp.exchange_declare h opts.exchange "topic" true)
    if has_dead_letters opts then declare_dead_letters h opts else pure tt
    wrapped "declare queue %q" (amqp.queue_declare h opts.queue true (queue_args opts))
    bind_keys h opts.queue opts.exchange opts.binding_keys
