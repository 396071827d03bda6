-- ===== src/Tests/Backfill.antt =====
-- A backfill of one order with two items, over markers and a count of the writes.
use quickbite_analytics_serv.Base.{
  suc, ◌≡◌, refl, Bool, true, false, Option, none, some, List, [], ◌∷◌,
}
use quickbite_analytics_serv.Base.Int.{ℤ, pos}
use quickbite_analytics_serv.Errors.{plain, Result, ok, err}
use quickbite_analytics_serv.Exec.{Exec}
use quickbite_analytics_serv.Backfill.Literal.{read_array}
use quickbite_analytics_serv.Backfill.Rows.{Config, Stats, OrderRow, ItemRow, Cursor, Postgres}
use quickbite_analytics_serv.Backfill.Rows.Laws.{items_any, cursor_of}
use quickbite_analytics_serv.Backfill.Replay.{
  AggregateWriter, count_skipped, replay_with_dedupe, replay_one, after_mark, after_apply,
}
use quickbite_analytics_serv.Backfill.Replay.Laws.{
  WriterLaws, each_event, replay_with_dedupe_released,
}
use quickbite_analytics_serv.Backfill.Replay.Again.{replay_one_again}
use quickbite_analytics_serv.Backfill.Run.{run}
use quickbite_analytics_serv.Backfill.Run.Laws.{Database}
use quickbite_analytics_serv.Backfill.Run.Dry.{run-dry}
use quickbite_analytics_serv.Tests.Events.{Seen, start, deduper, deduper_laws}

abbrev zero_stats : Stats
zero_stats = record { scanned = pos 0; replayed = pos 0; skipped_dup = pos 0; failed = pos 0 }

abbrev write : {I : Type 0} → I → Exec Seen (Unit {0})
write i s = (ok tt, record s { handled = suc s.handled })

abbrev writer : AggregateWriter Seen
writer = record { on_order_placed = write; on_order_rejected = write; on_order_delivered = write }

abbrev writer_laws : WriterLaws deduper writer deduper_laws
writer_laws = record {
  placed_keeps = λ i w j. refl;
  rejected_keeps = λ i w j. refl;
  delivered_keeps = λ i w j. refl;
}

abbrev order : OrderRow
order = record {
  public_id = "ord-1";
  region = "eg";
  country_code = "EG";
  restaurant_id = pos 7;
  branch_id = pos 70;
  currency = "EGP";
  total = pos 2000;
  created_at = pos 1000;
  rejected_at = none;
  delivered_at = some (pos 5000);
}

abbrev item : ℤ → ItemRow
item order_id = record {
  order_id = order_id;
  order_created_at = pos 1000;
  product_id = pos 31;
  quantity = pos 1;
  line_total = pos 1000;
}

abbrev table : List ItemRow
table = item (pos 1) ∷ item (pos 2) ∷ item (pos 1) ∷ []

abbrev pub config : Bool → Config
config dry_run = record {
  pg_host = "localhost";
  pg_user = "postgres";
  pg_pass = "";
  pg_db = "order_service_eg";
  pg_port = pos 5432;
  region = "eg";
  from_date = "2026-05-01";
  to_date = "2026-05-31";
  mongo_uri = "mongodb://localhost:27017";
  mongo_db = "analytics";
  batch_size = pos 500;
  dry_run = dry_run;
}

-- The literal is read as PostgreSQL does.
abbrev answer : Option (List ℤ) → Result (Cursor ItemRow)
answer none = err (plain "malformed array literal")
answer (some ids) = ok (cursor_of (items_any ids table))

abbrev pub postgres : Postgres
postgres = record {
  query_orders = λ from to. ok (cursor_of ((pos 1, order) ∷ []));
  query_items = λ literal. answer (read_array literal);
}

abbrev database : Database (config false) postgres
database = record {
  orders = (pos 1, order) ∷ [];
  items = table;
  orders_found = refl;
  items_found = λ literal ids reads. rw reads refl;
}

replay_with_dedupe_released_example :
    ((replay_with_dedupe false deduper "backfill:eg:ord-1:placed"
        (λ s. (err (plain "timeout"), s))
        (zero_stats, start)).0
      ≡ err (plain "timeout"))
    × ((replay_with_dedupe false deduper "backfill:eg:ord-1:placed"
            (λ s. (err (plain "timeout"), s))
            (zero_stats, start)).1.1.marks
          "backfill:eg:ord-1:placed"
        ≡ false)
replay_with_dedupe_released_example =
    replay_with_dedupe_released deduper writer deduper_laws "backfill:eg:ord-1:placed"
      (λ s. (err (plain "timeout"), s)) zero_stats start (plain "timeout") refl refl refl

replay_one_again_example :
    replay_one false deduper writer order table
      (zero_stats, (replay_one false deduper writer order table (zero_stats, start)).1.1)
    ≡ (
      ok tt,
      (
        each_event order count_skipped zero_stats,
        (replay_one false deduper writer order table (zero_stats, start)).1.1,
      ),
    )
unfolding replay_one replay_with_dedupe after_mark after_apply
replay_one_again_example =
    replay_one_again deduper writer deduper_laws writer_laws order table table (zero_stats, start)
      zero_stats refl

run-dry_example : (run (config true) postgres deduper writer (zero_stats, start)).1.1 ≡ start
run-dry_example = run-dry (config true) postgres deduper writer refl (zero_stats, start)
