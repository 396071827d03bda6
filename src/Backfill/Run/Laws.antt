-- ===== src/Backfill/Run/Laws.antt =====
-- The run of internal/backfill/backfill.go on a database that answers its queries.
use quickbite_analytics_serv.Base.{◌≡◌, List, [], ◌∷◌}
use quickbite_analytics_serv.Base.Int.{ℤ}
use quickbite_analytics_serv.Errors.{ok}
use quickbite_analytics_serv.Exec.{Exec}
use quickbite_analytics_serv.Events.Consumer.{EventDeduper}
use quickbite_analytics_serv.Backfill.Rows.{Config, Stats, OrderRow, ItemRow, Postgres}
use quickbite_analytics_serv.Backfill.Rows.Laws.{items_for, cursor_of, AnswersItems}
use quickbite_analytics_serv.Backfill.Replay.{AggregateWriter, replay_one}
use quickbite_analytics_serv.Backfill.Run.{counted_failure, scanned_one}

-- The database during the run: its orders of the window, and the items of all orders.
pub record Database (f : Config) (pg : Postgres) : Type 0 where
  pub orders : List (ℤ × OrderRow)
  pub items : List ItemRow
  pub orders_found : pg.query_orders f.from_date f.to_date ≡ ok (cursor_of orders)
  pub items_found : AnswersItems pg items

module _ {W : Type 0} where
  -- `m` goes the same way whether a row is counted before it or after it.
  abbrev Steady : Exec (Stats × W) (Unit {0}) → Type 0
  Steady m = (s : Stats × W) → m (scanned_one s) ≡ ((m s).0, scanned_one (m s).1)

module _ {W : Type 0} (f : Config) (pg : Postgres) (deduper : EventDeduper W)
    (svc : AggregateWriter W) where
  -- The orders one at a time, each with its own items of the table.
  unfoldable pub replay_each : List ItemRow → List (ℤ × OrderRow) → Stats × W → Stats × W
  replay_each table [] s = s
  replay_each table ((id, o) ∷ orders) s =
      let (answer, s') = replay_one f.dry_run deduper svc o (items_for id table) s in
      replay_each table orders (counted_failure answer s')

  -- One count for each scanned row.
  abbrev pub scan_each : List (ℤ × OrderRow) → Stats × W → Stats × W
  scan_each [] s = s
  scan_each (p ∷ orders) s = scan_each orders (scanned_one s)
