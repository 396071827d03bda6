-- ===== src/Backfill/Flags.antt =====
-- internal/backfill/backfill.go: `ParseFlags`, with what it uses of the package flag.
pub mod Laws
use Prim.Native.Char.{code}
use quickbite_analytics_serv.Base.{
  String, Bool, true, false, ◌||◌, ◌==◌, Option, none, some, List, [], ◌∷◌, str_eq, if◌then◌else◌,
}
use quickbite_analytics_serv.Base.Int.{ℤ, pos, leb_ℤ}
use quickbite_analytics_serv.Errors.{Err, plain, wrap, Result, ok, err}
use quickbite_analytics_serv.Mongo.Rows.{assoc}
use quickbite_analytics_serv.Service.Dates.{Date, parse_date, after}
use quickbite_analytics_serv.Backfill.Rows.{Config}

-- `strconv`: the values of integer and Boolean flags
pub record Strconv : Type 0 where
  pub parse_int : String → Result ℤ
  pub parse_bool : String → Result Bool

-- How the value of a flag is stored.
pub data Flag : Type 0 where
  text : (String → Config → Config) → Flag
  number : (ℤ → Config → Config) → Flag
  boolean : (Bool → Config → Config) → Flag

unfoldable pub formal : List (String × Flag)
formal =
    ("pg-host", Flag.text λ v f. record f { pg_host = v })
    ∷ ("pg-port", Flag.number λ v f. record f { pg_port = v })
    ∷ ("pg-user", Flag.text λ v f. record f { pg_user = v })
    ∷ ("pg-pass", Flag.text λ v f. record f { pg_pass = v })
    ∷ ("pg-db", Flag.text λ v f. record f { pg_db = v })
    ∷ ("region", Flag.text λ v f. record f { region = v })
    ∷ ("from-date", Flag.text λ v f. record f { from_date = v })
    ∷ ("to-date", Flag.text λ v f. record f { to_date = v })
    ∷ ("mongo-uri", Flag.text λ v f. record f { mongo_uri = v })
    ∷ ("mongo-db", Flag.text λ v f. record f { mongo_db = v })
    ∷ ("batch", Flag.number λ v f. record f { batch_size = v })
    ∷ ("dry-run", Flag.boolean λ v f. record f { dry_run = v })
    ∷ []

abbrev pub default_config : Config
default_config = record {
  pg_host = "localhost";
  pg_user = "postgres";
  pg_pass = "";
  pg_db = "order_service_eg";
  pg_port = pos 5432;
  region = "eg";
  from_date = "";
  to_date = "";
  mongo_uri = "mongodb://localhost:27017";
  mongo_db = "analytics";
  batch_size = pos 500;
  dry_run = false;
}

-- An argument: one that ends the flags, one that is no flag but begins as one, or a flag's name and
-- what follows its `=`.
pub data Argument : Type 0 where
  operand : Argument
  bad_syntax : Argument
  named : String → Option String → Argument

split_value : String → String × Option String
split_value String.[] = (String.[], none)
split_value (String.◌∷◌ c s) =
    let (name, value) = split_value s in
    if code c == b'=' then (String.[], some s) else (String.◌∷◌ c name, value)

abbrev name_of : String → Argument
name_of String.[] = Argument.bad_syntax
name_of (String.◌∷◌ c s) =
    if (code c == b'-') || (code c == b'=')
    then Argument.bad_syntax
    else (let (name, value) = split_value (String.◌∷◌ c s) in Argument.named name value)

-- after one dash; a further one belongs to the dashes, and `--` alone ends the flags
abbrev after_dash : String → Argument
after_dash String.[] = Argument.operand
after_dash (String.◌∷◌ c s) =
    if code c == b'-'
    then (if str_eq s "" then Argument.operand else name_of s)
    else name_of (String.◌∷◌ c s)

unfoldable pub argument : String → Argument
unfolding split_value
argument String.[] = Argument.operand
argument (String.◌∷◌ c s) = if code c == b'-' then after_dash s else Argument.operand

-- Where `Parse` is: at the next argument, at the value of a flag, behind the flags, or refused.
pub data Progress : Type 0 where
  scanning : Config → Progress
  awaiting : Flag → Config → Progress
  ended : Config → Progress
  refused : Err → Progress

abbrev pub store : {A : Type 0} → String → (A → Config → Config) → Config → Result A → Progress
store why set f (err e) = Progress.refused (plain why)
store why set f (ok v) = Progress.scanning (set v f)

module _ (conv : Strconv) where
  abbrev set_flag : Flag → String → Config → Progress
  set_flag (Flag.text set) v f = Progress.scanning (set v f)
  set_flag (Flag.number set) v f =
      store "invalid value %q for flag -%s: %v" set f (conv.parse_int v)
  set_flag (Flag.boolean set) v f =
      store "invalid boolean value %q for -%s: %v" set f (conv.parse_bool v)

  -- `-h` and `-help` are not defined either; their error has another text in Go.
  -- A Boolean flag with no value is set; any other waits for the next argument.
  abbrev on_flag : Option Flag → Option String → Config → Progress
  on_flag none v f = Progress.refused (plain "flag provided but not defined: -%s")
  on_flag (some flag) (some v) f = set_flag flag v f
  on_flag (some (Flag.boolean set)) none f = Progress.scanning (set true f)
  on_flag (some flag) none f = Progress.awaiting flag f

  abbrev on_argument : Argument → Config → Progress
  on_argument Argument.operand f = Progress.ended f
  on_argument Argument.bad_syntax f = Progress.refused (plain "bad flag syntax: %s")
  on_argument (Argument.named name v) f = on_flag (assoc name formal) v f

  unfoldable pub parse_one : Progress → String → Progress
  unfolding formal argument
  parse_one (Progress.scanning f) s = on_argument (argument s) f
  parse_one (Progress.awaiting flag f) s = set_flag flag s f
  parse_one (Progress.ended f) s = Progress.ended f
  parse_one (Progress.refused e) s = Progress.refused e

  unfoldable pub parse_args : List String → Progress → Progress
  unfolding parse_one
  parse_args [] p = p
  parse_args (s ∷ args) p = parse_args args (parse_one p s)

  abbrev pub parsed : Progress → Result Config
  parsed (Progress.scanning f) = ok f
  parsed (Progress.awaiting flag f) = err (plain "flag needs an argument: -%s")
  parsed (Progress.ended f) = ok f
  parsed (Progress.refused e) = err e

  -- `set.Parse(args)`
  unfoldable pub parse : List String → Result Config
  unfolding parse_args
  parse args = parsed (parse_args args (Progress.scanning default_config))

abbrev pub check_batch : Config → Result Config
check_batch f =
    if leb_ℤ f.batch_size (pos 0) then err (plain "--batch must be greater than zero") else ok f

abbrev pub check_dates : Config → Result Date → Result Date → Result Config
check_dates f (err e) to = err (wrap "bad --from-date" e)
check_dates f (ok from) (err e) = err (wrap "bad --to-date" e)
check_dates f (ok from) (ok to) =
    if after from to
    then err (plain "--from-date must be on or before --to-date")
    else check_batch f

-- the checks of `ParseFlags` behind the parse
unfoldable pub check_flags : Result Config → Result Config
check_flags (err e) = err e
check_flags (ok f) =
    if str_eq f.from_date "" || str_eq f.to_date ""
    then err (plain "--from-date and --to-date are required")
    else check_dates f (parse_date f.from_date) (parse_date f.to_date)

unfoldable pub parse_flags : Strconv → List String → Result Config
unfolding check_flags parse
parse_flags conv args = check_flags (parse conv args)
