-- ===== src/Events/Consumer/Redelivery.antt =====
-- What becomes of an event whose handler of lib/coreevents/consumer.go failed and that is delivered
-- again.
use quickbite_analytics_serv.Base.{String, ◌≡◌, Bool, true, false, bool_conflict, some}
use quickbite_analytics_serv.Errors.{Err, ok, err, is_permanent}
use quickbite_analytics_serv.Mongo.Rows.{assoc}
use quickbite_analytics_serv.Messaging.{Delivery}
use quickbite_analytics_serv.Events.Payloads.{Envelope}
use quickbite_analytics_serv.Events.Handlers.{EventHandler}
use quickbite_analytics_serv.Events.Consumer.{Consumer, settle, dispatch}
use quickbite_analytics_serv.Events.Consumer.Laws.{
  DeduperLaws, Named, KeepsMarks, dispatch_fresh, transient_released,
}

module _ {W B R : Type 0} (c : Consumer W B R) (laws : DeduperLaws c.deduper) where
  -- An unmarked event is not taken for one that was seen.
  unmarked_fresh :
      (i : String) (w : W) (b : Bool)
      → laws.marked w i ≡ false
      → (c.deduper.mark_seen i w).0 ≡ ok b
      → (c.deduper.mark_seen i w).0 ≡ ok true
  unmarked_fresh i w true unmarked answered = answered
  unmarked_fresh i w false unmarked answered =
      bool_conflict (laws.marked w i) (laws.mark_refused i w answered) unmarked

  module _ (d : Delivery W B) (env : Envelope R) (h : EventHandler W R) (w : W)
      (named : Named c laws d env) (found : assoc env.event_type c.handlers ≡ some h)
      (fresh : (c.deduper.mark_seen env.event_id w).0 ≡ ok true) where
    -- the world that the first delivery leaves, and the one in which the handler starts again
    abbrev pub failed_once : W
    failed_once = (dispatch c d w).1

    abbrev pub again : W
    again = (c.deduper.mark_seen env.event_id failed_once).1

    -- An event whose handler failed transiently is not lost: delivered again, by any delivery with the
    -- same envelope, it reaches its handler again, if the release of its marker succeeded, the
    -- deduper answers, and the handler and the broker leave the markers alone. The delivery is then
    -- settled by what the handler answers this time.
    pub redelivered :
        (e : Err) (d' : Delivery W B) (b : Bool)
        → KeepsMarks c laws h d
        → (h env (c.deduper.mark_seen env.event_id w).1).0 ≡ err e
        → is_permanent e ≡ false
        → (c.deduper.forget env.event_id (h env (c.deduper.mark_seen env.event_id w).1).1).0 ≡ ok tt
        → Named c laws d' env
        → (c.deduper.mark_seen env.event_id failed_once).0 ≡ ok b
        → dispatch c d' failed_once ≡ settle c d' env (h env again).0 (h env again).1
    redelivered e d' b keeps failed transient released named' answered =
        dispatch_fresh c laws d' env h failed_once named' found (
          unmarked_fresh env.event_id failed_once b
            (transient_released c laws d env h w named found fresh e keeps failed transient
              released)
            answered)
