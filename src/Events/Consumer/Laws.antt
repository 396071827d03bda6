-- ===== src/Events/Consumer/Laws.antt =====
-- The deduplication of deliveries by lib/coreevents/consumer.go, with what it asks of its deduper.
use quickbite_analytics_serv.Base.{
  String, ◌≡◌, refl, Bool, true, false, not, ◌&&◌, ◌||◌, some, str_eq, eq_refl, ◌∙◌,
}
use quickbite_analytics_serv.Errors.{Err, Result, ok, err, is_permanent}
use quickbite_analytics_serv.Mongo.Rows.{assoc}
use quickbite_analytics_serv.Messaging.{Delivery}
use quickbite_analytics_serv.Events.Payloads.{Envelope}
use quickbite_analytics_serv.Events.Handlers.{EventHandler}
use quickbite_analytics_serv.Events.Consumer.{
  EventDeduper, Consumer, settle, run_handler, after_mark, dispatch_envelope, dispatch,
}

-- What the consumer relies on of its deduper. `marked` is the set of event ids that were seen.
pub record DeduperLaws {W : Type 0} (d : EventDeduper W) : Type 0 where
  pub marked : W → String → Bool
  pub mark_fresh :
      (i : String) (w : W)
      → (d.mark_seen i w).0 ≡ ok true
      → (marked w i ≡ false)
        × ((j : String) → marked (d.mark_seen i w).1 j ≡ (str_eq i j || marked w j))
  pub mark_again : (i : String) (w : W) → marked w i ≡ true → d.mark_seen i w ≡ (ok false, w)
  pub mark_refused : (i : String) (w : W) → (d.mark_seen i w).0 ≡ ok false → marked w i ≡ true
  pub forget_ok :
      (i : String) (w : W)
      → (d.forget i w).0 ≡ ok tt
      → (j : String) → marked (d.forget i w).1 j ≡ (not (str_eq i j) && marked w j)

module _ {W B R : Type 0} (c : Consumer W B R) where
  module _ (laws : DeduperLaws c.deduper) where
    -- The envelope is readable and names its event.
    pub record Named (d : Delivery W B) (env : Envelope R) : Type 0 where
      pub decoded : c.decode d.body ≡ ok env
      pub id_given : str_eq env.event_id "" ≡ false
      pub type_given : str_eq env.event_type "" ≡ false

    pub dispatch-eq-after_mark :
        (d : Delivery W B) (env : Envelope R) (w : W)
        → Named d env
        → dispatch c d w
          ≡ after_mark c d env
              (c.deduper.mark_seen env.event_id w).0
              (c.deduper.mark_seen env.event_id w).1
    unfolding dispatch
    dispatch-eq-after_mark d env w n =
        rw (n.decoded, dispatch_envelope) (rw (n.id_given, n.type_given))

    -- A delivery of an event that was seen is acknowledged, and nothing else happens.
    pub dispatch_duplicate :
        (d : Delivery W B) (env : Envelope R) (w : W)
        → Named d env
        → laws.marked w env.event_id ≡ true
        → dispatch c d w ≡ d.ack w
    unfolding after_mark
    dispatch_duplicate d env w n seen =
        rw (dispatch-eq-after_mark d env w n, laws.mark_again env.event_id w seen)

    -- Neither the handlers nor the broker touch the markers.
    pub record KeepsMarks (h : EventHandler W R) (d : Delivery W B) : Type 0 where
      pub handler_keeps :
          (env : Envelope R) (w : W) (j : String) → laws.marked (h env w).1 j ≡ laws.marked w j
      pub ack_keeps : (w : W) (j : String) → laws.marked (d.ack w).1 j ≡ laws.marked w j
      pub nack_keeps :
          (b : Bool) (w : W) (j : String) → laws.marked (d.nack b w).1 j ≡ laws.marked w j

    -- The handler's answer that ends the matter: success, or a failure that no retry can mend.
    abbrev pub IsFinal : Result (Unit {0}) → Type 0
    IsFinal (ok _) = Unit {0}
    IsFinal (err e) = is_permanent e ≡ true

    settle_marked :
        (d : Delivery W B) (env : Envelope R) (h : EventHandler W R) (r : Result (Unit {0})) (w : W)
        (j : String)
        → KeepsMarks h d
        → IsFinal r
        → laws.marked (settle c d env r w).1 j ≡ laws.marked w j
    unfolding settle
    settle_marked d env h (ok _) w j k f = k.ack_keeps w j
    settle_marked d env h (err e) w j k f = rw (f, settle) (k.nack_keeps false w j)

    module _ (d : Delivery W B) (env : Envelope R) (h : EventHandler W R) (w : W)
        (named : Named d env) (found : assoc env.event_type c.handlers ≡ some h)
        (fresh : (c.deduper.mark_seen env.event_id w).0 ≡ ok true) where
      -- the world in which the handler starts
      abbrev pub start : W
      start = (c.deduper.mark_seen env.event_id w).1

      -- A new event reaches its handler once its marker is written.
      pub dispatch_fresh : dispatch c d w ≡ settle c d env (h env start).0 (h env start).1
      unfolding after_mark
      dispatch_fresh =
          rw (dispatch-eq-after_mark d env w named, fresh, after_mark) (rw (found, run_handler))

      start_marked : laws.marked start env.event_id ≡ true
      start_marked =
          rw ((laws.mark_fresh env.event_id w fresh).1 env.event_id, eq_refl env.event_id)

      -- A new event whose handler succeeded, or failed for good, is not handled again: if the handler
      -- and the broker leave the markers alone, the next delivery with the id of the event is
      -- acknowledged, and nothing else happens.
      pub handled_once :
          (d' : Delivery W B) (env' : Envelope R)
          → KeepsMarks h d
          → IsFinal (h env start).0
          → Named d' env'
          → env'.event_id ≡ env.event_id
          → dispatch c d' (dispatch c d w).1 ≡ d'.ack (dispatch c d w).1
      handled_once d' env' k final named' same =
          dispatch_duplicate d' env' (dispatch c d w).1 named' (
            rw (same, dispatch_fresh)
              (settle_marked d env h (h env start).0 (h env start).1 env.event_id k final
                ∙ k.handler_keeps env start env.event_id
                ∙ start_marked))

      -- After a transient failure of the handler of a new event the event is not marked, if the
      -- release of its marker succeeds and the handler and the broker leave the markers alone.
      pub transient_released :
          (e : Err)
          → KeepsMarks h d
          → (h env start).0 ≡ err e
          → is_permanent e ≡ false
          → (c.deduper.forget env.event_id (h env start).1).0 ≡ ok tt
          → laws.marked (dispatch c d w).1 env.event_id ≡ false
      unfolding settle
      transient_released e k failed transient released =
          rw (dispatch_fresh, failed, settle)
            (rw transient (
              k.nack_keeps false _ env.event_id
              ∙ rw
                  (
                    laws.forget_ok env.event_id (h env start).1 released env.event_id,
                    eq_refl env.event_id,
                  )
                  refl))
