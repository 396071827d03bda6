-- ===== src/Tests/Answers.antt =====
-- A delivery with a log of the answers.
use quickbite_analytics_serv.Base.{
  String, ◌≡◌, refl, inl, inr, Bool-cases, Option, none, some, sym, ap, List, [], ◌∷◌, str_eq,
}
use quickbite_analytics_serv.Errors.{ok}
use quickbite_analytics_serv.Exec.{Exec}
use quickbite_analytics_serv.Messaging.{Delivery}
use quickbite_analytics_serv.Events.Payloads.{Envelope}
use quickbite_analytics_serv.Events.Handlers.{EventHandler}
use quickbite_analytics_serv.Events.Consumer.{Consumer, dispatch}
use quickbite_analytics_serv.Events.Consumer.Answers.{
  Settlement, AnswerLog, AnsweredOnce, SettledOnce, dispatch-AnsweredOnce,
}
use quickbite_analytics_serv.Mongo.Rows.{assoc}
use quickbite_analytics_serv.Tests.Events.{Seen, start, deduper, count, topology, envelope}

pub record Logged : Type 0 where
  pub seen : Seen
  pub answers : List Settlement

abbrev pub logged : Logged
logged = record { seen = start; answers = [] }

abbrev on_seen : {A : Type 0} → Exec Seen A → Exec Logged A
on_seen m w = let (r, s) = m w.seen in (r, record w { seen = s })

abbrev logging_consumer : Consumer Logged (Unit {0}) (Unit {0})
logging_consumer = record {
  decode = λ body. ok envelope;
  deduper = record {
    mark_seen = λ i. on_seen (deduper.mark_seen i);
    forget = λ i. on_seen (deduper.forget i);
  };
  topology = topology;
  handlers = ("order.placed", λ env. on_seen (count env)) ∷ [];
}

abbrev logged_delivery : Delivery Logged (Unit {0})
logged_delivery = record {
  routing_key = "order.placed";
  body = tt;
  ack = λ w. (ok tt, record w { answers = Settlement.acked ∷ w.answers });
  nack = λ requeue w. (ok tt, record w { answers = Settlement.nacked requeue ∷ w.answers });
}

only_count :
    (t : String) (h : EventHandler Logged (Unit {0})) (env : Envelope (Unit {0})) (w : Logged)
    → assoc t logging_consumer.handlers ≡ some h
    → (h env w).1.answers ≡ w.answers
only_count t h env w found = elim (Bool-cases (str_eq "order.placed" t)) [
  | inl same ↦
      let this : some (λ (e : Envelope (Unit {0})). on_seen (count e)) ≡ some h =
        rw same at found in
      ap (λ (o : Option (EventHandler Logged (Unit {0}))). answers_after o) (sym this)
  | inr other ↦ let impossible : none ≡ some h = rw other at found in cc
]
  where
    answers_after : Option (EventHandler Logged (Unit {0})) → List Settlement
    answers_after none = w.answers
    answers_after (some g) = (g env w).1.answers

abbrev answer_log : AnswerLog logging_consumer logged_delivery
answer_log = record {
  log = λ w. w.answers;
  ack_logged = λ w. refl;
  nack_logged = λ b w. refl;
  mark_silent = λ i w. refl;
  forget_silent = λ i w. refl;
  handlers_silent = only_count;
}

dispatch-AnsweredOnce_example :
    AnsweredOnce logging_consumer logged_delivery answer_log logged
      (dispatch logging_consumer logged_delivery logged).1
    × SettledOnce logged_delivery (dispatch logging_consumer logged_delivery) logged
dispatch-AnsweredOnce_example =
    dispatch-AnsweredOnce logging_consumer logged_delivery answer_log logged
