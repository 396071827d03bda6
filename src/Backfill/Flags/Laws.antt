-- ===== src/Backfill/Flags/Laws.antt =====
-- Which flags `ParseFlags` of internal/backfill/backfill.go accepts.
use quickbite_analytics_serv.Base.{
  String, ◌≡◌, refl, sym, ap, ◌∙◌, ◌↔◌, Bool, true, false, ◌||◌, ◌⊎◌, inl, inr, Bool-cases, List,
  [], ◌∷◌, str_eq, eq_iff, arith, if◌then◌else◌,
}
use quickbite_analytics_serv.Base.Int.{ℤ, pos, ◌≤ℤ◌, leb_ℤ}
use quickbite_analytics_serv.Errors.{Result, ok, err}
use quickbite_analytics_serv.Service.Dates.{Date, parse_codes, parse_date, after}
use quickbite_analytics_serv.Backfill.Rows.{Config}
use quickbite_analytics_serv.Backfill.Flags.{
  Strconv, Flag, Progress, store, default_config, parsed, formal, argument, parse_one, parse_args,
  parse, check_batch, check_dates, check_flags, parse_flags,
}

-- Both ends are dates, the first is not after the second, and the batch has room for an order.
pub record Runnable (f : Config) : Type 0 where
  pub from : Date
  pub to : Date
  pub from_read : parse_date f.from_date ≡ ok from
  pub to_read : parse_date f.to_date ≡ ok to
  pub in_order : after from to ≡ false
  pub batch_positive : pos 1 ≤ℤ f.batch_size

check_dates-ok :
    (f g : Config) (a b : Result Date)
    → check_dates f a b ≡ ok g
    → (from : Date) × (to : Date) × (a ≡ ok from)
      × (b ≡ ok to)
      × (after from to ≡ false)
      × (pos 1 ≤ℤ f.batch_size)
      × (f ≡ g)
check_dates-ok f g (err e) b h = cc
check_dates-ok f g (ok from) (err e) h = cc
check_dates-ok f g (ok from) (ok to) h = elim (Bool-cases (after from to)) [
  | inl later ↦ let impossible : err _ ≡ ok g = rw later at h in cc
  | inr ordered ↦
      let (positive, same) = in_batch (Bool-cases (leb_ℤ f.batch_size (pos 0))) (rw ordered at h) in
      (from, to, refl, refl, ordered, positive, same)
]
  where
    in_batch :
        (leb_ℤ f.batch_size (pos 0) ≡ true) ⊎ (leb_ℤ f.batch_size (pos 0) ≡ false)
        → check_batch f ≡ ok g
        → (pos 1 ≤ℤ f.batch_size) × (f ≡ g)
    in_batch (inl none) h = let impossible : err _ ≡ ok g = rw none at h in cc
    in_batch (inr some) h = (ground (arith, some), cc)

abbrev dry_run_args : Config → List String
dry_run_args f = if f.dry_run then "--dry-run" ∷ [] else []

abbrev after_port : (ℤ → String) → Config → List String
after_port show f =
    "--pg-user"
    ∷ f.pg_user
    ∷ "--pg-pass"
    ∷ f.pg_pass
    ∷ "--pg-db"
    ∷ f.pg_db
    ∷ "--region"
    ∷ f.region
    ∷ "--from-date"
    ∷ f.from_date
    ∷ "--to-date"
    ∷ f.to_date
    ∷ "--mongo-uri"
    ∷ f.mongo_uri
    ∷ "--mongo-db"
    ∷ f.mongo_db
    ∷ "--batch"
    ∷ show f.batch_size
    ∷ dry_run_args f

-- The command line that sets every flag.
abbrev pub command_line : (ℤ → String) → Config → List String
command_line show f = "--pg-host" ∷ f.pg_host ∷ "--pg-port" ∷ show f.pg_port ∷ after_port show f

-- A flag with a number takes the argument behind it.
set_number :
    (conv : Strconv) (set : ℤ → Config → Config) (shown : String) (n : ℤ) (rest : List String)
    (g : Config)
    → conv.parse_int shown ≡ ok n
    → parse_args conv (shown ∷ rest) (Progress.awaiting (Flag.number set) g)
      ≡ parse_args conv rest (Progress.scanning (set n g))
unfolding parse_args parse_one
set_number conv set shown n rest g h =
    ap (λ r. parse_args conv rest (store "invalid value %q for flag -%s: %v" set g r)) h

-- `f`, but for the fields that the end of the command line sets
abbrev before_batch : Config → Config
before_batch f = record f { batch_size = pos 500; dry_run = false }

dry_run_flag :
    (conv : Strconv) (f : Config) (dry : Bool)
    → f.dry_run ≡ dry
    → parse_args conv
        (if dry then "--dry-run" ∷ [] else [])
        (Progress.scanning (record f { dry_run = false }))
      ≡ Progress.scanning f
unfolding parse_args parse_one argument formal
dry_run_flag conv f true h = ap (λ b. Progress.scanning (record f { dry_run = b })) (sym h)
dry_run_flag conv f false h = ap (λ b. Progress.scanning (record f { dry_run = b })) (sym h)

-- The command line that sets every flag is parsed to the configuration it was made of, if its two
-- numbers are read back.
pub parse-command_line :
    (conv : Strconv) (show : ℤ → String) (f : Config)
    → conv.parse_int (show f.pg_port) ≡ ok f.pg_port
    → conv.parse_int (show f.batch_size) ≡ ok f.batch_size
    → parse conv (command_line show f) ≡ ok f
unfolding parse parse_args parse_one argument formal
parse-command_line conv show f port batch = ap (parsed conv) (
    set_number conv (λ v g. record g { pg_port = v }) (show f.pg_port) f.pg_port (after_port show f)
      (record default_config { pg_host = f.pg_host }) port
    ∙ set_number conv (λ v g. record g { batch_size = v }) (show f.batch_size) f.batch_size
        (dry_run_args f) (before_batch f) batch
    ∙ dry_run_flag conv f f.dry_run refl)

-- No date is the empty text.
given : (s : String) (d : Date) → parse_date s ≡ ok d → str_eq s "" ≡ false
unfolding parse_date parse_codes
given s d h = elim (Bool-cases (str_eq s "")) [
  | inl empty ↦
      let impossible : parse_date "" ≡ ok d = sym (ap parse_date ((eq_iff s "").0 empty)) ∙ h in cc
  | inr filled ↦ filled
]

check_flags-Runnable : (f g : Config) → check_flags (ok f) ≡ ok g → Runnable f × (f ≡ g)
unfolding check_flags
check_flags-Runnable f g h = elim (Bool-cases (str_eq f.from_date "" || str_eq f.to_date "")) [
  | inl missing ↦ let impossible : err _ ≡ ok g = rw missing at h in cc
  | inr given ↦
      let (from, to, from_read, to_read, ordered, positive, same) =
        check_dates-ok f g (parse_date f.from_date) (parse_date f.to_date) (rw given at h) in
      (
        record {
          from = from;
          to = to;
          from_read = from_read;
          to_read = to_read;
          in_order = ordered;
          batch_positive = positive;
        },
        same,
      )
]

Runnable-check_flags : (f : Config) → Runnable f → check_flags (ok f) ≡ ok f
unfolding check_flags
Runnable-check_flags f r =
    rw (given f.from_date r.from r.from_read, given f.to_date r.to r.to_read)
      (rw (r.from_read, r.to_read) (rw r.in_order (rw in_batch refl)))
  where
    in_batch : leb_ℤ f.batch_size (pos 0) ≡ false
    in_batch = let positive = r.batch_positive in ground (arith, positive)

-- `ParseFlags` accepts a configuration exactly if the arguments parse to it, both of its dates are
-- dates of the calendar, the first is not after the second, and its batch size is 1 or more.
pub parse_flags_iff :
    (conv : Strconv) (args : List String) (f : Config)
    → (parse_flags conv args ≡ ok f) ↔ ((parse conv args ≡ ok f) × Runnable f)
unfolding parse_flags check_flags
parse_flags_iff conv args f = (
  λ accepted. of_parsed (parse conv args) accepted,
  λ (parsed_as, runnable). ap check_flags parsed_as ∙ Runnable-check_flags f runnable,
)
  where
    of_parsed : (r : Result Config) → check_flags r ≡ ok f → (r ≡ ok f) × Runnable f
    of_parsed (ok g) h =
        let (runnable, same) = check_flags-Runnable g f h in (ap ok same, rw same at runnable)
    of_parsed (err e) h = let impossible : err e ≡ ok f = h in cc

-- Every configuration that can run is accepted from the command line that sets its flags, if its two
-- numbers are read back.
pub parse_flags-command_line :
    (conv : Strconv) (show : ℤ → String) (f : Config)
    → conv.parse_int (show f.pg_port) ≡ ok f.pg_port
    → conv.parse_int (show f.batch_size) ≡ ok f.batch_size
    → Runnable f
    → parse_flags conv (command_line show f) ≡ ok f
parse_flags-command_line conv show f port batch runnable =
    (parse_flags_iff conv (command_line show f) f).1
      (parse-command_line conv show f port batch, runnable)
