-- ===== src/Backfill/Replay/Again.antt =====
-- A second replay of an order whose first one succeeded.
use quickbite_analytics_serv.Base.{String, ◌≡◌, refl, true, false, Option, none, some, List}
use quickbite_analytics_serv.Errors.{ok}
use quickbite_analytics_serv.Exec.{Exec, ◌>>◌, continue-eq-ok}
use quickbite_analytics_serv.Mongo.Values.{Time}
use quickbite_analytics_serv.Events.Consumer.{EventDeduper}
use quickbite_analytics_serv.Events.Consumer.Laws.{DeduperLaws}
use quickbite_analytics_serv.Backfill.Rows.{Stats, OrderRow, ItemRow}
use quickbite_analytics_serv.Backfill.Replay.{
  AggregateWriter, count_skipped, backfill_id, placed_input, rejected_input, delivered_input,
  replay_with_dedupe, replay_rejected, replay_delivered, replay_one,
}
use quickbite_analytics_serv.Backfill.Replay.Laws.{
  once_if, each_event, WriterLaws, replay_with_dedupe_seen, replay_with_dedupe-Settled,
}

module _ {W : Type 0} (deduper : EventDeduper W) (svc : AggregateWriter W)
    (laws : DeduperLaws deduper) (writes : WriterLaws deduper svc laws) where
  -- the event, if the row has it, is marked
  abbrev Marks : String → Option Time → W → Type 0
  Marks i none w = Unit {0}
  Marks i (some _) w = laws.marked w i ≡ true

  abbrev Grows : W → W → Type 0
  Grows w v = (j : String) → laws.marked w j ≡ true → laws.marked v j ≡ true

  Marks-Grows : (i : String) (t : Option Time) (w v : W) → Grows w v → Marks i t w → Marks i t v
  Marks-Grows i none w v g h = tt
  Marks-Grows i (some _) w v g h = g i h

  module _ (o : OrderRow) where
    abbrev placed : List ItemRow → Exec (Stats × W) (Unit {0})
    placed items =
        replay_with_dedupe false deduper (backfill_id o "placed")
          (svc.on_order_placed (placed_input o items))

    rejected-Marks :
        (t : Option Time) (s : Stats × W)
        → (replay_rejected false deduper svc o t s).0 ≡ ok tt
        → Marks (backfill_id o "rejected") t (replay_rejected false deduper svc o t s).1.1
          × Grows s.1 (replay_rejected false deduper svc o t s).1.1
    rejected-Marks none s done = (tt, λ j old. old)
    rejected-Marks (some t) s done =
        replay_with_dedupe-Settled deduper svc laws (backfill_id o "rejected")
          (svc.on_order_rejected (rejected_input o t)) s
          (writes.rejected_keeps (rejected_input o t)) done

    delivered-Marks :
        (t : Option Time) (s : Stats × W)
        → (replay_delivered false deduper svc o t s).0 ≡ ok tt
        → Marks (backfill_id o "delivered") t (replay_delivered false deduper svc o t s).1.1
          × Grows s.1 (replay_delivered false deduper svc o t s).1.1
    delivered-Marks none s done = (tt, λ j old. old)
    delivered-Marks (some t) s done =
        replay_with_dedupe-Settled deduper svc laws (backfill_id o "delivered")
          (svc.on_order_delivered (delivered_input o t)) s
          (writes.delivered_keeps (delivered_input o t)) done

    -- the events of the row are all marked
    abbrev AllMarked : Option Time → Option Time → W → Type 0
    AllMarked rejected delivered w =
        (laws.marked w (backfill_id o "placed") ≡ true)
        × (Marks (backfill_id o "rejected") rejected w
            × Marks (backfill_id o "delivered") delivered w)

    abbrev stages : List ItemRow → Option Time → Option Time → Exec (Stats × W) (Unit {0})
    stages items rejected delivered =
        placed items
        >> (replay_rejected false deduper svc o rejected
            >> replay_delivered false deduper svc o delivered)

    stages-AllMarked :
        (items : List ItemRow) (rejected delivered : Option Time) (s : Stats × W)
        → (stages items rejected delivered s).0 ≡ ok tt
        → AllMarked rejected delivered (stages items rejected delivered s).1.1
    stages-AllMarked items rejected delivered s done =
        let (_, same, done', first) = continue-eq-ok (placed items s).0 _ (placed items s).1 done in
        let s₁ : Stats × W = (placed items s).1 in
        let m₂ = replay_rejected false deduper svc o rejected in
        let m₃ = replay_delivered false deduper svc o delivered in
        let (_, same', third, second) = continue-eq-ok (m₂ s₁).0 _ (m₂ s₁).1 done' in
        let (placed_marked, _) =
          replay_with_dedupe-Settled deduper svc laws (backfill_id o "placed")
            (svc.on_order_placed (placed_input o items)) s
            (writes.placed_keeps (placed_input o items)) first in
        let (rejected_marked, grows) = rejected-Marks rejected s₁ second in
        let (delivered_marked, grows') = delivered-Marks delivered (m₂ s₁).1 third in
        rw (same, same')
          (
            grows' _ (grows _ placed_marked),
            (Marks-Grows _ rejected _ _ grows' rejected_marked, delivered_marked),
          )

    stages_skipped :
        (items : List ItemRow) (rejected delivered : Option Time) (st : Stats) (w : W)
        → AllMarked rejected delivered w
        → stages items rejected delivered (st, w) ≡ (
          ok tt,
          (once_if delivered count_skipped (once_if rejected count_skipped (count_skipped st)), w),
        )
    stages_skipped items rejected delivered st w (p, (r, d)) =
        rw
          (replay_with_dedupe_seen deduper svc laws (backfill_id o "placed")
            (svc.on_order_placed (placed_input o items)) st w p)
          (by_times rejected delivered r d)
      where
        by_times :
            (rejected delivered : Option Time)
            → Marks (backfill_id o "rejected") rejected w
            → Marks (backfill_id o "delivered") delivered w
            → (replay_rejected false deduper svc o rejected
                  >> replay_delivered false deduper svc o delivered)
                (count_skipped st, w)
              ≡ (
                ok tt,
                (
                  once_if delivered count_skipped
                      (once_if rejected count_skipped (count_skipped st)),
                  w,
                ),
              )
        by_times none none r d = refl
        by_times none (some t) r d = replay_with_dedupe_seen deduper svc laws _ _ _ w d
        by_times (some t) none r d =
            rw
              (replay_with_dedupe_seen deduper svc laws _
                (svc.on_order_rejected (rejected_input o t)) (count_skipped st) w r)
              refl
        by_times (some t) (some u) r d =
            rw
              (replay_with_dedupe_seen deduper svc laws _
                (svc.on_order_rejected (rejected_input o t)) (count_skipped st) w r)
              (replay_with_dedupe_seen deduper svc laws _ _ _ w d)

    -- If the writes leave the markers alone, then after a replay of an order that succeeded a second
    -- replay of the order succeeds, counts each of its events as a duplicate, and leaves the world
    -- as it is.
    pub replay_one_again :
        (items items' : List ItemRow) (s : Stats × W) (st : Stats)
        → (replay_one false deduper svc o items s).0 ≡ ok tt
        → replay_one false deduper svc o items' (st, (replay_one false deduper svc o items s).1.1)
          ≡ (ok tt, (each_event o count_skipped st, (replay_one false deduper svc o items s).1.1))
    unfolding replay_one
    replay_one_again items items' s st done =
        stages_skipped items' o.rejected_at o.delivered_at st _
          (stages-AllMarked items o.rejected_at o.delivered_at s done)
