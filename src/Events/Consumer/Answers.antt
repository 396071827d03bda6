-- ===== src/Events/Consumer/Answers.antt =====
-- The answers that lib/coreevents/consumer.go gives to the broker: one for each delivery.
use quickbite_analytics_serv.Base.{
  String, ◌≡◌, refl, Bool, true, false, ◌||◌, ◌⊎◌, inl, inr, Option, none, some, str_eq,
  if◌then◌else◌, Bool-cases, ◌∙◌, ap, List, ◌∷◌,
}
use quickbite_analytics_serv.Errors.{Result, ok, err, is_permanent}
use quickbite_analytics_serv.Exec.{Exec}
use quickbite_analytics_serv.Mongo.Rows.{assoc}
use quickbite_analytics_serv.Messaging.{Delivery}
use quickbite_analytics_serv.Events.Payloads.{Envelope}
use quickbite_analytics_serv.Events.Handlers.{EventHandler}
use quickbite_analytics_serv.Events.Consumer.{
  Consumer, settle, run_handler, after_mark, dispatch_envelope, dispatch,
}

pub data Settlement : Type 0 where
  acked : Settlement
  -- whether it was put back on its queue
  nacked : Bool → Settlement

-- Either answer of the broker, from some world: one ack, or one nack that does not requeue.
abbrev pub SettledOnce : {W B : Type 0} → Delivery W B → Exec W (Unit {0}) → W → Type 0
SettledOnce {W} d m w = (w' : W) × ((m w ≡ d.ack w') ⊎ (m w ≡ d.nack false w'))

module _ {W B R : Type 0} (c : Consumer W B R) where
  run_handler-SettledOnce :
      (d : Delivery W B) (env : Envelope R) (h : Option (EventHandler W R)) (w : W)
      → SettledOnce d (run_handler c d env h) w
  unfolding run_handler
  run_handler-SettledOnce d env none w = (w, inl refl)
  run_handler-SettledOnce d env (some h) w = settle-SettledOnce (h env w).0 (h env w).1
    where
      settle-SettledOnce : (r : Result (Unit {0})) (v : W) → SettledOnce d (settle c d env r) v
      settle-SettledOnce (ok _) v = (v, inl refl)
      settle-SettledOnce (err e) v =
          ((if is_permanent e then v else (c.deduper.forget env.event_id v).1), inr refl)

  after_mark-SettledOnce :
      (d : Delivery W B) (env : Envelope R) (fresh : Result Bool) (w : W)
      → SettledOnce d (after_mark c d env fresh) w
  unfolding after_mark
  after_mark-SettledOnce d env (err e) w = (w, inr refl)
  after_mark-SettledOnce d env (ok false) w = (w, inl refl)
  after_mark-SettledOnce d env (ok true) w =
      run_handler-SettledOnce d env (assoc env.event_type c.handlers) w

  dispatch_envelope-SettledOnce :
      (d : Delivery W B) (env : Result (Envelope R)) (w : W)
      → SettledOnce d (dispatch_envelope c d env) w
  unfolding dispatch_envelope
  dispatch_envelope-SettledOnce d (err e) w = (w, inr refl)
  dispatch_envelope-SettledOnce d (ok env) w =
      elim (Bool-cases (str_eq env.event_id "" || str_eq env.event_type "")) [
        | inl unnamed ↦ rw unnamed (w, inr refl)
        | inr named ↦ rw named (
            after_mark-SettledOnce d env (c.deduper.mark_seen env.event_id w).0
              (c.deduper.mark_seen env.event_id w).1)
      ]

  -- Every delivery, readable or not, is settled as the last thing that is done: by one ack, or by
  -- one nack that does not put it back on its queue.
  dispatch-SettledOnce : (d : Delivery W B) (w : W) → SettledOnce d (dispatch c d) w
  unfolding dispatch
  dispatch-SettledOnce d w = dispatch_envelope-SettledOnce d (c.decode d.body) w

  -- What the broker was answered so far, the last answer first: an answer adds itself, and neither
  -- the deduper nor a handler answers the broker.
  pub record AnswerLog (d : Delivery W B) : Type 0 where
    pub log : W → List Settlement
    pub ack_logged : (w : W) → log (d.ack w).1 ≡ Settlement.acked ∷ log w
    pub nack_logged : (b : Bool) (w : W) → log (d.nack b w).1 ≡ Settlement.nacked b ∷ log w
    pub mark_silent : (i : String) (w : W) → log (c.deduper.mark_seen i w).1 ≡ log w
    pub forget_silent : (i : String) (w : W) → log (c.deduper.forget i w).1 ≡ log w
    pub handlers_silent :
        (t : String) (h : EventHandler W R) (env : Envelope R) (w : W)
        → assoc t c.handlers ≡ some h
        → log (h env w).1 ≡ log w

  module _ (d : Delivery W B) (a : AnswerLog d) where
    -- One answer was given since `w`: an ack, or a nack that does not requeue.
    abbrev pub AnsweredOnce : W → W → Type 0
    AnsweredOnce w v =
        (a.log v ≡ Settlement.acked ∷ a.log w) ⊎ (a.log v ≡ Settlement.nacked false ∷ a.log w)

    settle-AnsweredOnce :
        (env : Envelope R) (r : Result (Unit {0})) (w : W) → AnsweredOnce w (settle c d env r w).1
    unfolding settle
    settle-AnsweredOnce env (ok _) w = inl (a.ack_logged w)
    settle-AnsweredOnce env (err e) w =
        inr
          (a.nack_logged false _ ∙ ap (λ l. Settlement.nacked false ∷ l) (silent (is_permanent e)))
      where
        silent : (b : Bool) → a.log (if b then w else (c.deduper.forget env.event_id w).1) ≡ a.log w
        silent true = refl
        silent false = a.forget_silent env.event_id w

    run_handler-AnsweredOnce :
        (env : Envelope R) (w : W)
        → AnsweredOnce w (run_handler c d env (assoc env.event_type c.handlers) w).1
    unfolding run_handler
    run_handler-AnsweredOnce env w = by_handler (assoc env.event_type c.handlers) refl
      where
        by_handler :
            (o : Option (EventHandler W R))
            → assoc env.event_type c.handlers ≡ o
            → AnsweredOnce w (run_handler c d env o w).1
        by_handler none found = inl (a.ack_logged w)
        by_handler (some h) found =
            let once = settle-AnsweredOnce env (h env w).0 (h env w).1 in
            rw (a.handlers_silent env.event_type h env w found) at once

    after_mark-AnsweredOnce :
        (env : Envelope R) (fresh : Result Bool) (w : W)
        → AnsweredOnce w (after_mark c d env fresh w).1
    unfolding after_mark
    after_mark-AnsweredOnce env (err e) w = inr (a.nack_logged false w)
    after_mark-AnsweredOnce env (ok false) w = inl (a.ack_logged w)
    after_mark-AnsweredOnce env (ok true) w = run_handler-AnsweredOnce env w

    dispatch_envelope-AnsweredOnce :
        (env : Result (Envelope R)) (w : W) → AnsweredOnce w (dispatch_envelope c d env w).1
    unfolding dispatch_envelope
    dispatch_envelope-AnsweredOnce (err e) w = inr (a.nack_logged false w)
    dispatch_envelope-AnsweredOnce (ok env) w =
        elim (Bool-cases (str_eq env.event_id "" || str_eq env.event_type "")) [
          | inl unnamed ↦ rw unnamed (inr (a.nack_logged false w))
          | inr named ↦ rw named (
              let once =
                after_mark-AnsweredOnce env (c.deduper.mark_seen env.event_id w).0
                  (c.deduper.mark_seen env.event_id w).1 in
              rw (a.mark_silent env.event_id w) at once)
        ]

    -- Let neither the deduper nor a handler answer the broker. Then every delivery, readable or not,
    -- is answered exactly once, by an ack or by a nack that does not put it back on its queue, and
    -- this is the last thing that is done.
    pub dispatch-AnsweredOnce :
        (w : W) → AnsweredOnce w (dispatch c d w).1 × SettledOnce d (dispatch c d) w
    unfolding dispatch
    dispatch-AnsweredOnce w =
        (dispatch_envelope-AnsweredOnce (c.decode d.body) w, dispatch-SettledOnce d w)
