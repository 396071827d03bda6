-- ===== src/Tests/Command.antt =====
-- The command line of a backfill, and a run of the whole program over the database in memory.
use quickbite_analytics_serv.Base.{
  String, ◌≡◌, refl, ◌↔◌, ◌⊎◌, true, some, List, [], ◌∷◌, str_eq, if◌then◌else◌,
}
use quickbite_analytics_serv.Base.Int.{pos, negsuc}
use quickbite_analytics_serv.Errors.{plain, ok, err}
use quickbite_analytics_serv.Mongo.Client.{MongoDriver}
use quickbite_analytics_serv.Backfill.Rows.{Config}
use quickbite_analytics_serv.Backfill.Literal.{int64_array, read_array}
use quickbite_analytics_serv.Backfill.Literal.RoundTrip.{read_array-int64_array}
use quickbite_analytics_serv.Backfill.Flags.{
  Strconv, formal, argument, parse_one, parse_args, parse, parse_flags, default_config,
}
use quickbite_analytics_serv.Backfill.Flags.Laws.{Runnable, parse_flags_iff}
use quickbite_analytics_serv.Backfill.Command.{SqlDriver}
use quickbite_analytics_serv.Backfill.Command.Laws.{Completed, Failed, Refused, main_outcomes}
use quickbite_analytics_serv.Tests.Memory.{World, empty, memory}
use quickbite_analytics_serv.Tests.Data.{utc_date}
use quickbite_analytics_serv.Tests.Backfill.{postgres}

read_array-int64_array_example :
    read_array (int64_array (pos 12 ∷ negsuc 6 ∷ pos 0 ∷ []))
    ≡ some (pos 12 ∷ negsuc 6 ∷ pos 0 ∷ [])
read_array-int64_array_example = read_array-int64_array (pos 12 ∷ negsuc 6 ∷ pos 0 ∷ [])

abbrev conv : Strconv
conv = record {
  parse_int = λ s. if str_eq s "250" then ok (pos 250) else err (plain "invalid syntax");
  parse_bool = λ s. ok true;
}

abbrev args : List String
args =
    "--from-date=2026-01-01" ∷ "-to-date" ∷ "2026-05-21" ∷ "--batch=250" ∷ "--dry-run" ∷ "rest" ∷ []

abbrev window : Config
window = record default_config {
  from_date = "2026-01-01";
  to_date = "2026-05-21";
  batch_size = pos 250;
  dry_run = true;
}

args_parsed : parse conv args ≡ ok window
unfolding parse parse_args parse_one argument formal
args_parsed = refl

parse_flags_iff_example :
    (parse_flags conv args ≡ ok window) ↔ ((parse conv args ≡ ok window) × Runnable window)
parse_flags_iff_example = parse_flags_iff conv args window

abbrev sql : SqlDriver World (Unit {0})
sql = record {
  open_db = λ dsn. ok tt;
  set_max_open_conns = λ db n w. w;
  ping = λ db timeout w. (ok tt, w);
  close = λ db w. w;
  queries = λ db w. postgres;
  show = λ n. "5432";
}

abbrev mongo : MongoDriver World (Unit {0})
mongo = record {
  dial = λ uri timeout w. (ok tt, w);
  ping = λ client timeout w. (ok tt, w);
  hang_up = λ client w. (ok tt, w);
  database = λ client name. memory;
}

main_outcomes_example :
    Completed conv sql mongo utc_date args empty
    ⊎ (Failed conv sql mongo utc_date args empty ⊎ Refused conv sql mongo utc_date args empty)
main_outcomes_example = main_outcomes conv sql mongo utc_date args empty
