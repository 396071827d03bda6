-- ===== src/Backfill/Run.antt =====
-- internal/backfill/backfill.go: `Run`. Orders are scanned in batches, the items of a batch are
-- fetched at once, and an order that fails is counted and passed over.
pub mod Laws
pub mod Dry
use quickbite_analytics_serv.Base.{
  String, Bool, true, false, List, [], ◌∷◌, ◌++◌, map, length, if◌then◌else◌,
}
use quickbite_analytics_serv.Base.Int.{ℤ, pos, leb_ℤ}
use quickbite_analytics_serv.Errors.{Err, wrap, Result, ok, err}
use quickbite_analytics_serv.Exec.{Exec, ◌>>◌, ◌>>=◌, pure, fail, lift}
use quickbite_analytics_serv.Events.Consumer.{EventDeduper}
use quickbite_analytics_serv.Backfill.Rows.{
  Config, Stats, OrderRow, ItemRow, Cursor, Postgres, ItemsByOrder, items_of, fetch_items,
}
use quickbite_analytics_serv.Backfill.Replay.{
  AggregateWriter, count_scanned, count_failed, replay_one,
}

abbrev pub order_ids : List (ℤ × OrderRow) → List ℤ
order_ids [] = []
order_ids ((id, o) ∷ batch) = id ∷ order_ids batch

-- An error of one order is counted and not passed on.
abbrev pub counted_failure : {W : Type 0} → Result (Unit {0}) → Stats × W → Stats × W
counted_failure (ok _) s = s
counted_failure (err e) (st, w) = (count_failed st, w)

abbrev pub scanned_one : {W : Type 0} → Stats × W → Stats × W
scanned_one (st, w) = (count_scanned st, w)

module _ {W : Type 0} (f : Config) (pg : Postgres) (deduper : EventDeduper W)
    (svc : AggregateWriter W) where
  unfoldable pub replay_batch : ItemsByOrder → List (ℤ × OrderRow) → Stats × W → Stats × W
  replay_batch items [] s = s
  replay_batch items ((id, o) ∷ batch) s =
      let (answer, s') = replay_one f.dry_run deduper svc o (items_of items id) s in
      replay_batch items batch (counted_failure answer s')

  abbrev pub flush_with : Result ItemsByOrder → List (ℤ × OrderRow) → Exec (Stats × W) (Unit {0})
  flush_with (err e) batch s = (err (wrap "fetch items" e), s)
  flush_with (ok items) batch s = (ok tt, replay_batch items batch s)

  -- `flush`; the caller goes on with an empty batch.
  unfoldable pub flush : List (ℤ × OrderRow) → Exec (Stats × W) (Unit {0})
  unfolding replay_batch
  flush [] s = (ok tt, s)
  flush (p ∷ batch) s = flush_with (fetch_items pg (order_ids (p ∷ batch))) (p ∷ batch) s

  -- `len(batch) >= f.BatchSize`
  abbrev pub is_full : List (ℤ × OrderRow) → Bool
  is_full batch = leb_ℤ f.batch_size (pos (length batch))

  -- The conditional flush at the end of the loop's body, and the batch that it leaves.
  abbrev pub flush_full : List (ℤ × OrderRow) → Exec (Stats × W) (Unit {0})
  flush_full batch s = if is_full batch then flush batch s else (ok tt, s)

  abbrev pub kept : List (ℤ × OrderRow) → List (ℤ × OrderRow)
  kept batch = if is_full batch then [] else batch

  -- The loop over the scanned rows, the check of `rows.Err()`, and the last flush.
  unfoldable pub scan_orders :
      List (Result (ℤ × OrderRow))
      → Result (Unit {0})
      → List (ℤ × OrderRow)
      → Exec (Stats × W) (Unit {0})
  unfolding flush
  scan_orders [] (err e) batch s = (err e, s)
  scan_orders [] (ok _) batch s = flush batch s
  scan_orders (err e ∷ rows) end_err batch s = (err (wrap "scan row" e), s)
  scan_orders (ok p ∷ rows) end_err batch s =
      let full : List (ℤ × OrderRow) = batch ++ p ∷ [] in
      (flush_full full >> scan_orders rows end_err (kept full)) (scanned_one s)

  abbrev pub run_cursor : Result (Cursor (ℤ × OrderRow)) → Exec (Stats × W) (Unit {0})
  run_cursor (err e) s = (err (wrap "scan orders" e), s)
  run_cursor (ok c) s = scan_orders c.rows c.end_err [] s

  unfoldable pub run : Exec (Stats × W) (Unit {0})
  unfolding scan_orders
  run s = run_cursor (pg.query_orders f.from_date f.to_date) s
