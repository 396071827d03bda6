-- ===== src/Backfill/Run/Dry.antt =====
-- A dry run of internal/backfill/backfill.go, on any database.
use quickbite_analytics_serv.Base.{
  ◌≡◌, refl, ap, ◌∙◌, Bool, true, inl, inr, Bool-cases, List, [], ◌∷◌, ◌++◌,
}
use quickbite_analytics_serv.Base.Int.{ℤ}
use quickbite_analytics_serv.Errors.{Result, ok, err}
use quickbite_analytics_serv.Exec.{Exec, ◌>>◌, continue}
use quickbite_analytics_serv.Events.Consumer.{EventDeduper}
use quickbite_analytics_serv.Backfill.Rows.{
  Config, Stats, OrderRow, ItemRow, Cursor, Postgres, ItemsByOrder, items_of, fetch_items,
}
use quickbite_analytics_serv.Backfill.Replay.{AggregateWriter, replay_one}
use quickbite_analytics_serv.Backfill.Replay.Laws.{replay_one-dry}
use quickbite_analytics_serv.Backfill.Run.{
  order_ids, counted_failure, replay_batch, flush_with, flush, is_full, flush_full, kept,
  scanned_one, scan_orders, run_cursor, run,
}

module _ {W : Type 0} where
  abbrev Still : Exec (Stats × W) (Unit {0}) → Type 0
  Still m = (s : Stats × W) → (m s).1.1 ≡ s.1

  then-Still : (m n : Exec (Stats × W) (Unit {0})) → Still m → Still n → Still (m >> n)
  then-Still m n hm hn s = after (m s).0 (m s).1 ∙ hm s
    where
      after : (r : Result (Unit {0})) (s' : Stats × W) → (continue r (λ _. n) s').1.1 ≡ s'.1
      after (ok _) s' = hn s'
      after (err e) s' = refl

module _ {W : Type 0} (f : Config) (pg : Postgres) (deduper : EventDeduper W)
    (svc : AggregateWriter W) (dry : f.dry_run ≡ true) where
  replay_one-Still :
      (dry_run : Bool)
      → dry_run ≡ true
      → (o : OrderRow) (items : List ItemRow) → Still (replay_one dry_run deduper svc o items)
  replay_one-Still dry_run h o items s =
      rw h (ap (λ answer. answer.1.1) (replay_one-dry deduper svc o items s.0 s.1))

  failure-Still : (r : Result (Unit {0})) (s : Stats × W) → (counted_failure r s).1 ≡ s.1
  failure-Still (ok _) s = refl
  failure-Still (err e) s = refl

  replay_batch-Still :
      (items : ItemsByOrder) (batch : List (ℤ × OrderRow)) (s : Stats × W)
      → (replay_batch f pg deduper svc items batch s).1 ≡ s.1
  unfolding replay_batch
  replay_batch-Still items [] s = refl
  replay_batch-Still items ((id, o) ∷ batch) s =
      replay_batch-Still items batch _
      ∙ failure-Still (replay_one f.dry_run deduper svc o (items_of items id) s).0 _
      ∙ replay_one-Still f.dry_run dry o (items_of items id) s

  flush-Still : (batch : List (ℤ × OrderRow)) → Still (flush f pg deduper svc batch)
  unfolding flush
  flush-Still [] s = refl
  flush-Still (p ∷ batch) s = fetched (fetch_items pg (order_ids (p ∷ batch)))
    where
      fetched : (r : Result ItemsByOrder) → (flush_with f pg deduper svc r (p ∷ batch) s).1.1 ≡ s.1
      fetched (err e) = refl
      fetched (ok items) = replay_batch-Still items (p ∷ batch) s

  flush_full-Still : (batch : List (ℤ × OrderRow)) → Still (flush_full f pg deduper svc batch)
  flush_full-Still batch s = elim (Bool-cases (is_full f pg deduper svc batch)) [
    | inl full ↦ rw full (flush-Still batch s)
    | inr more ↦ rw more refl
  ]

  scan_orders-Still :
      (rows : List (Result (ℤ × OrderRow))) (end_err : Result (Unit {0}))
      (batch : List (ℤ × OrderRow))
      → Still (scan_orders f pg deduper svc rows end_err batch)
  unfolding scan_orders
  scan_orders-Still [] (err e) batch s = refl
  scan_orders-Still [] (ok _) batch s = flush-Still batch s
  scan_orders-Still (err e ∷ rows) end_err batch s = refl
  scan_orders-Still (ok p ∷ rows) end_err batch s =
      then-Still (flush_full f pg deduper svc (batch ++ p ∷ []))
        (scan_orders f pg deduper svc rows end_err (kept f pg deduper svc (batch ++ p ∷ [])))
        (flush_full-Still (batch ++ p ∷ []))
        (scan_orders-Still rows end_err (kept f pg deduper svc (batch ++ p ∷ []))) (scanned_one s)

  -- A dry run leaves the world as it is, whatever the database answers: it writes no aggregate and
  -- no marker.
  pub run-dry : (s : Stats × W) → (run f pg deduper svc s).1.1 ≡ s.1
  unfolding run
  run-dry s = queried (pg.query_orders f.from_date f.to_date)
    where
      queried : (r : Result (Cursor (ℤ × OrderRow))) → (run_cursor f pg deduper svc r s).1.1 ≡ s.1
      queried (err e) = refl
      queried (ok c) = scan_orders-Still c.rows c.end_err [] s
