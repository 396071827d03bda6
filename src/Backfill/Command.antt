-- ===== src/Backfill/Command.antt =====
-- cmd/backfill-aggs/main.go, with `OpenPG` of internal/backfill/backfill.go: the program from its
-- arguments to its exit code. Log lines are not modelled.
pub mod Laws
use Prim.Native.String.{◌++◌}
use quickbite_analytics_serv.Base.{ℕ, String, Option, none, some, List}
use quickbite_analytics_serv.Base.Int.{ℤ, pos}
use quickbite_analytics_serv.Errors.{Err, wrap, Result, ok, err}
use quickbite_analytics_serv.Exec.{Exec}
use quickbite_analytics_serv.Mongo.{Mongo}
use quickbite_analytics_serv.Mongo.Values.{Time}
use quickbite_analytics_serv.Mongo.Client.{MongoDriver}
use quickbite_analytics_serv.Repository.Indexes.{ensure_indexes}
use quickbite_analytics_serv.Repository.Stores.{new_analytics_service}
use quickbite_analytics_serv.Service.Writes.{on_order_placed, on_order_rejected, on_order_delivered}
use quickbite_analytics_serv.Events.Deduper.{event_ids_repo}
use quickbite_analytics_serv.Backfill.Rows.{Config, Stats, Postgres}
use quickbite_analytics_serv.Backfill.Replay.{AggregateWriter}
use quickbite_analytics_serv.Backfill.Run.{run}
use quickbite_analytics_serv.Backfill.Flags.{Strconv, parse_flags}

-- `database/sql` with the driver of Postgres; `D` is an open database.
pub record SqlDriver (W D : Type 0) : Type 0 where
  pub open_db : String → Result D
  pub set_max_open_conns : D → ℕ → W → W
  -- with a time-out in milliseconds
  pub ping : D → ℕ → Exec W (Unit {0})
  pub close : D → W → W
  pub queries : D → W → Postgres
  -- `%d`
  pub show : ℤ → String

-- What `main` leaves: its exit code, and the statistics that it logs on success.
pub record Exit : Type 0 where
  pub code : ℕ
  pub stats : Option Stats

abbrev pub failed : ℕ → Exit
failed code = record { code = code; stats = none }

abbrev pub no_stats : Stats
no_stats = record { scanned = pos 0; replayed = pos 0; skipped_dup = pos 0; failed = pos 0 }

module _ {W C D : Type 0} (conv : Strconv) (sql : SqlDriver W D) (driver : MongoDriver W C)
    (utc_date : Time → String) where
  unfoldable pub dsn : Config → String
  dsn f =
      "host="
      ++ f.pg_host
      ++ " port="
      ++ sql.show f.pg_port
      ++ " user="
      ++ f.pg_user
      ++ " password="
      ++ f.pg_pass
      ++ " dbname="
      ++ f.pg_db
      ++ " sslmode=disable"

  abbrev pub reachable : D → Result (Unit {0}) → Exec W D
  reachable db (err e) w = (err (wrap "ping" e), sql.close db w)
  reachable db (ok _) w = (ok db, w)

  abbrev pub opened : Result D → Exec W D
  opened (err e) w = (err e, w)
  opened (ok db) w =
      let (answer, w') = sql.ping db 5000 (sql.set_max_open_conns db 4 w) in reachable db answer w'

  -- `OpenPG`
  unfoldable pub open_pg : Config → Exec W D
  unfolding dsn
  open_pg f w = opened (sql.open_db (dsn f)) w

  abbrev pub aggregate_writer : Mongo W → AggregateWriter W
  aggregate_writer m = record {
    on_order_placed = on_order_placed (new_analytics_service m) utc_date;
    on_order_rejected = on_order_rejected (new_analytics_service m) utc_date;
    on_order_delivered = on_order_delivered (new_analytics_service m) utc_date;
  }

  -- `os.Exit` runs no deferred call; a `main` that returns runs both.
  abbrev pub after_run : D → C → Result (Unit {0}) × (Stats × W) → Exit × W
  after_run db client (err e, s) = (failed 1, s.1)
  after_run db client (ok _, s) =
      (record { code = 0; stats = some s.0 }, sql.close db (driver.hang_up client s.1).1)

  abbrev pub after_indexes : Config → D → C → Mongo W → Result (Unit {0}) → W → Exit × W
  after_indexes f db client m (err e) w = (failed 1, w)
  after_indexes f db client m (ok _) w =
      after_run db client
        (run f (sql.queries db w) (event_ids_repo m) (aggregate_writer m) (no_stats, w))

  abbrev pub after_mongo : Config → D → Result C → W → Exit × W
  after_mongo f db (err e) w = (failed 1, w)
  after_mongo f db (ok client) w =
      let m = driver.database client f.mongo_db in
      let (answer, w') = ensure_indexes m w in after_indexes f db client m answer w'

  abbrev pub after_postgres : Config → Result D → W → Exit × W
  after_postgres f (err e) w = (failed 1, w)
  after_postgres f (ok db) w =
      let (client, w') = driver.dial f.mongo_uri none w in after_mongo f db client w'

  abbrev pub after_flags : Result Config → W → Exit × W
  after_flags (err e) w = (failed 2, w)
  after_flags (ok f) w = let (db, w') = open_pg f w in after_postgres f db w'

  unfoldable pub main : List String → W → Exit × W
  unfolding open_pg
  main args w = after_flags (parse_flags conv args) w
