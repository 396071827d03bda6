-- ===== src/Backfill/Replay/Laws.antt =====
-- Dry, repeated and failed replays of internal/backfill/backfill.go.
use quickbite_analytics_serv.Base.{
  String, ◌≡◌, refl, ◌∙◌, Bool, true, false, ◌||◌, Option, none, some, List, str_eq, eq_refl,
}
use quickbite_analytics_serv.Errors.{Err, Result, ok, err}
use quickbite_analytics_serv.Exec.{Exec, ◌>>◌}
use quickbite_analytics_serv.Mongo.Values.{Time}
use quickbite_analytics_serv.Types.{OnOrderPlacedInput, OnOrderRejectedInput, OnOrderDeliveredInput}
use quickbite_analytics_serv.Events.Consumer.{EventDeduper}
use quickbite_analytics_serv.Events.Consumer.Laws.{DeduperLaws}
use quickbite_analytics_serv.Backfill.Rows.{Stats, OrderRow, ItemRow}
use quickbite_analytics_serv.Backfill.Replay.{
  AggregateWriter, count_replayed, count_skipped, backfill_id, placed_input, after_apply,
  after_mark, replay_with_dedupe, replay_rejected, replay_delivered, replay_one,
}

-- One count for each event that an order row stands for.
abbrev pub once_if : Option Time → (Stats → Stats) → Stats → Stats
once_if none count st = st
once_if (some t) count st = count st

abbrev pub each_event : OrderRow → (Stats → Stats) → Stats → Stats
each_event o count st = once_if o.delivered_at count (once_if o.rejected_at count (count st))

module _ {W : Type 0} (deduper : EventDeduper W) (svc : AggregateWriter W) where
  -- A dry run counts each event of the order as replayed, succeeds, and leaves the world as it is.
  pub replay_one-dry :
      (o : OrderRow) (items : List ItemRow) (st : Stats) (w : W)
      → replay_one true deduper svc o items (st, w) ≡ (ok tt, (each_event o count_replayed st, w))
  unfolding replay_one replay_with_dedupe
  replay_one-dry o items st w = by_times o.rejected_at o.delivered_at
    where
      by_times :
          (rejected delivered : Option Time)
          → (replay_with_dedupe true deduper
                  (backfill_id o "placed")
                  (svc.on_order_placed (placed_input o items))
                >> (replay_rejected true deduper svc o rejected
                    >> replay_delivered true deduper svc o delivered))
              (st, w)
            ≡ (
              ok tt,
              (
                once_if delivered count_replayed
                    (once_if rejected count_replayed (count_replayed st)),
                w,
              ),
            )
      by_times none none = refl
      by_times none (some _) = refl
      by_times (some _) none = refl
      by_times (some _) (some _) = refl

  module _ (laws : DeduperLaws deduper) where
    -- The writes do not touch the markers.
    pub record WriterLaws : Type 0 where
      pub placed_keeps :
          (i : OnOrderPlacedInput) (w : W) (j : String)
          → laws.marked (svc.on_order_placed i w).1 j ≡ laws.marked w j
      pub rejected_keeps :
          (i : OnOrderRejectedInput) (w : W) (j : String)
          → laws.marked (svc.on_order_rejected i w).1 j ≡ laws.marked w j
      pub delivered_keeps :
          (i : OnOrderDeliveredInput) (w : W) (j : String)
          → laws.marked (svc.on_order_delivered i w).1 j ≡ laws.marked w j

    abbrev Keeps : Exec W (Unit {0}) → Type 0
    Keeps apply = (w : W) (j : String) → laws.marked (apply w).1 j ≡ laws.marked w j

    -- An event with its marker is counted as a duplicate, and the world stays as it is.
    pub replay_with_dedupe_seen :
        (i : String) (apply : Exec W (Unit {0})) (st : Stats) (w : W)
        → laws.marked w i ≡ true
        → replay_with_dedupe false deduper i apply (st, w) ≡ (ok tt, (count_skipped st, w))
    unfolding replay_with_dedupe after_mark
    replay_with_dedupe_seen i apply st w seen = rw (laws.mark_again i w seen)

    -- The three ways through a replay that succeeds, as far as the markers go.
    abbrev pub Settled : String → Stats × W → Result (Unit {0}) × (Stats × W) → Type 0
    Settled i (st, w) answer =
        answer.0 ≡ ok tt
        → (laws.marked answer.1.1 i ≡ true)
          × ((j : String) → laws.marked w j ≡ true → laws.marked answer.1.1 j ≡ true)

    pub replay_with_dedupe-Settled :
        (i : String) (apply : Exec W (Unit {0})) (s : Stats × W)
        → Keeps apply
        → Settled i s (replay_with_dedupe false deduper i apply s)
    unfolding replay_with_dedupe after_mark after_apply
    replay_with_dedupe-Settled i apply (st, w) keeps = marked_now (deduper.mark_seen i w).0 refl
      where
        applied :
            (deduper.mark_seen i w).0 ≡ ok true
            → (r : Result (Unit {0})) (v : W)
            → ((j : String) → laws.marked v j ≡ laws.marked (deduper.mark_seen i w).1 j)
            → Settled i (st, w) (after_apply false deduper i r (st, v))
        applied fresh (err e) v same done = cc
        applied fresh (ok _) v same done =
            let grown = (laws.mark_fresh i w fresh).1 in
            (
              same i ∙ rw (grown i, eq_refl i),
              λ j old. same j ∙ rw (grown j, old) (or_true (str_eq i j)),
            )
          where
            or_true : (b : Bool) → (b || true) ≡ true
            or_true true = refl
            or_true false = refl

        marked_now :
            (r : Result Bool)
            → (deduper.mark_seen i w).0 ≡ r
            → Settled i (st, w) (after_mark false deduper i apply r (st, (deduper.mark_seen i w).1))
        marked_now (err e) h done = cc
        marked_now (ok false) h done =
            let seen = laws.mark_refused i w h in rw (laws.mark_again i w seen) (seen, λ j old. old)
        marked_now (ok true) h done =
            applied h (apply (deduper.mark_seen i w).1).0 (apply (deduper.mark_seen i w).1).1
              (keeps (deduper.mark_seen i w).1) done

    -- If an event is new, its write fails and the marker is given back, then the replay answers the
    -- error of the write, and the event is not marked.
    pub replay_with_dedupe_released :
        (i : String) (apply : Exec W (Unit {0})) (st : Stats) (w : W) (e : Err)
        → (deduper.mark_seen i w).0 ≡ ok true
        → (apply (deduper.mark_seen i w).1).0 ≡ err e
        → (deduper.forget i (apply (deduper.mark_seen i w).1).1).0 ≡ ok tt
        → (replay_with_dedupe false deduper i apply (st, w)).0 ≡ err e
          × (laws.marked (replay_with_dedupe false deduper i apply (st, w)).1.1 i ≡ false)
    unfolding replay_with_dedupe after_mark after_apply
    replay_with_dedupe_released i apply st w e fresh failed given_back =
        rw (fresh, after_mark)
          (rw (failed, after_apply)
            (
              rw given_back refl,
              rw (laws.forget_ok i (apply (deduper.mark_seen i w).1).1 given_back i, eq_refl i)
                  refl,
            ))
