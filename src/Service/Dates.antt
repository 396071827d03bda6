-- ===== src/Service/Dates.antt =====
-- `time.Parse("2006-01-02", s)` and `validateRange` of app/analytics/service/analytics.service.go.
pub mod Order
use quickbite_analytics_serv.Base.{
  ℕ, String, ◌+◌, ◌-◌, ◌*◌, ◌%◌, Bool, true, false, ◌&&◌, ◌||◌, not, List, [], ◌∷◌, ltb, leb, ◌==◌,
  if◌then◌else◌,
}
use quickbite_analytics_serv.Base.Text.{codes}
use quickbite_analytics_serv.Errors.{plain, app, app_cause, Result, ok, err}
use quickbite_analytics_serv.Types.{err_validation, err_invalid_date_range}

pub record Date : Type 0 where
  pub year : ℕ
  pub month : ℕ
  pub day : ℕ

abbrev pub is_digit : ℕ → Bool
is_digit c = leb b'0' c && leb c b'9'

abbrev pub two_digits : ℕ → ℕ → ℕ
two_digits a b = 10 * (a - b'0') + (b - b'0')

abbrev is_leap : ℕ → Bool
is_leap y = (y % 4 == 0) && (not (y % 100 == 0) || (y % 400 == 0))

abbrev days_in : ℕ → ℕ → ℕ
days_in month year =
    if month == 2
    then (if is_leap year then 29 else 28)
    else if (month == 4) || ((month == 6) || ((month == 9) || (month == 11)))
    then 30
    else 31

abbrev in_calendar : Date → Bool
in_calendar d =
    (leb 1 d.month && leb d.month 12) && (leb 1 d.day && leb d.day (days_in d.month d.year))

abbrev checked_date : Date → Result Date
checked_date d = if in_calendar d then ok d else err (plain "month or day out of range")

abbrev pub digits_date : ℕ → ℕ → ℕ → ℕ → ℕ → ℕ → ℕ → ℕ → Date
digits_date y1 y2 y3 y4 m1 m2 d1 d2 = record {
  year = 100 * two_digits y1 y2 + two_digits y3 y4;
  month = two_digits m1 m2;
  day = two_digits d1 d2;
}

-- Four digits, a dash, two digits, a dash, two digits, and nothing more.
unfoldable pub parse_codes : List ℕ → Result Date
parse_codes (y1 ∷ y2 ∷ y3 ∷ y4 ∷ s1 ∷ m1 ∷ m2 ∷ s2 ∷ d1 ∷ d2 ∷ []) =
    if ((s1 == b'-') && (s2 == b'-'))
      && ((is_digit y1 && (is_digit y2 && (is_digit y3 && is_digit y4)))
          && (is_digit m1 && (is_digit m2 && (is_digit d1 && is_digit d2))))
    then checked_date (digits_date y1 y2 y3 y4 m1 m2 d1 d2)
    else err (plain "cannot parse date")
parse_codes _ = err (plain "cannot parse date")

unfoldable pub parse_date : String → Result Date
unfolding parse_codes
parse_date s = parse_codes (codes s)

-- `f.After(t)`
abbrev pub after : Date → Date → Bool
after f t =
    ltb t.year f.year
    || ((f.year == t.year) && (ltb t.month f.month || ((f.month == t.month) && ltb t.day f.day)))

abbrev pub check_order : Date → Result Date → Result (Unit {0})
check_order f (err e) = err (app_cause err_validation e)
check_order f (ok t) = if after f t then err (app err_invalid_date_range) else ok tt

abbrev pub check_range : Result Date → Result Date → Result (Unit {0})
check_range (err e) to = err (app_cause err_validation e)
check_range (ok f) to = check_order f to

unfoldable pub validate_range : String → String → Result (Unit {0})
unfolding parse_date
validate_range from to = check_range (parse_date from) (parse_date to)
