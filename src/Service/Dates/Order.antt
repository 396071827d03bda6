-- ===== src/Service/Dates/Order.antt =====
-- The order of dates and the order of their texts, for `validateRange` of
-- app/analytics/service/analytics.service.go.
use quickbite_analytics_serv.Base.{
  ℕ, String, ◌+◌, ◌*◌, ◌≤◌, ◌≡◌, refl, Bool, true, false, not, List, [], ◌∷◌, ltb, ◌==◌,
  if◌then◌else◌, arith, ◌↔◌, ap,
}
use quickbite_analytics_serv.Base.Text.{codes, lex_leb}
use quickbite_analytics_serv.Errors.{Result, ok, err}
use quickbite_analytics_serv.Service.Dates.{
  Date, is_digit, two_digits, parse_codes, parse_date, after, digits_date, check_range,
  validate_range,
}

abbrev order_then : ℕ → ℕ → Bool → Bool
order_then m n rest = if ltb m n then true else if m == n then rest else false

module _ (x y a b : ℕ) (dx : is_digit x ≡ true) (dy : is_digit y ≡ true) (da : is_digit a ≡ true)
    (db : is_digit b ≡ true) where
  lex_leb-two_digits :
      (xs ys : List ℕ)
      → lex_leb (x ∷ y ∷ xs) (a ∷ b ∷ ys)
        ≡ order_then (two_digits x y) (two_digits a b) (lex_leb xs ys)
  lex_leb-two_digits xs ys = ground arith

hundreds :
    (m n p q : ℕ) (rest : Bool)
    → n ≤ 99
    → q ≤ 99
    → order_then m p (order_then n q rest) ≡ order_then (100 * m + n) (100 * p + q) rest
hundreds m n p q rest hn hq = ground arith

two_digits_bound : (x y : ℕ) → is_digit x ≡ true → is_digit y ≡ true → two_digits x y ≤ 99
two_digits_bound x y hx hy = ground arith

-- The text of a date, taken apart.
record DateText (cs : List ℕ) (f : Date) : Type 0 where
  y1 : ℕ
  y2 : ℕ
  y3 : ℕ
  y4 : ℕ
  m1 : ℕ
  m2 : ℕ
  d1 : ℕ
  d2 : ℕ
  text : cs ≡ y1 ∷ y2 ∷ y3 ∷ y4 ∷ b'-' ∷ m1 ∷ m2 ∷ b'-' ∷ d1 ∷ d2 ∷ []
  y1_digit : is_digit y1 ≡ true
  y2_digit : is_digit y2 ≡ true
  y3_digit : is_digit y3 ≡ true
  y4_digit : is_digit y4 ≡ true
  m1_digit : is_digit m1 ≡ true
  m2_digit : is_digit m2 ≡ true
  d1_digit : is_digit d1 ≡ true
  d2_digit : is_digit d2 ≡ true
  year : f.year ≡ 100 * two_digits y1 y2 + two_digits y3 y4
  month : f.month ≡ two_digits m1 m2
  day : f.day ≡ two_digits d1 d2

parse_codes-DateText : (cs : List ℕ) (f : Date) → parse_codes cs ≡ ok f → DateText cs f
unfolding parse_codes
parse_codes-DateText (y1 ∷ y2 ∷ y3 ∷ y4 ∷ s1 ∷ m1 ∷ m2 ∷ s2 ∷ d1 ∷ d2 ∷ []) f h =
    let first : s1 ≡ b'-' = ground arith in
    let second : s2 ≡ b'-' = ground arith in
    let same : f ≡ digits_date y1 y2 y3 y4 m1 m2 d1 d2 = ground arith in
    record {
      y1 = y1;
      y2 = y2;
      y3 = y3;
      y4 = y4;
      m1 = m1;
      m2 = m2;
      d1 = d1;
      d2 = d2;
      text = cc (first, second);
      y1_digit = ground arith;
      y2_digit = ground arith;
      y3_digit = ground arith;
      y4_digit = ground arith;
      m1_digit = ground arith;
      m2_digit = ground arith;
      d1_digit = ground arith;
      d2_digit = ground arith;
      year = ap (λ (d : Date). d.year) same;
      month = ap (λ (d : Date). d.month) same;
      day = ap (λ (d : Date). d.day) same;
    }
parse_codes-DateText _ f h = cc

abbrev date_order : Date → Date → Bool
date_order f t = order_then f.year t.year (order_then f.month t.month (order_then f.day t.day true))

not-after : (f t : Date) → after f t ≡ not (date_order f t)
not-after f t = ground arith

module _ {xs ys : List ℕ} {f t : Date} (u : DateText xs f) (v : DateText ys t) where
  day_part : lex_leb (u.d1 ∷ u.d2 ∷ []) (v.d1 ∷ v.d2 ∷ []) ≡ order_then f.day t.day true
  day_part =
      rw (u.day, v.day)
        (lex_leb-two_digits u.d1 u.d2 v.d1 v.d2 u.d1_digit u.d2_digit v.d1_digit v.d2_digit [] [])

  month_part :
      lex_leb (u.m1 ∷ u.m2 ∷ b'-' ∷ u.d1 ∷ u.d2 ∷ []) (v.m1 ∷ v.m2 ∷ b'-' ∷ v.d1 ∷ v.d2 ∷ [])
      ≡ order_then f.month t.month (order_then f.day t.day true)
  month_part =
      rw
        (lex_leb-two_digits u.m1 u.m2 v.m1 v.m2 u.m1_digit u.m2_digit v.m1_digit v.m2_digit
          (b'-' ∷ u.d1 ∷ u.d2 ∷ []) (b'-' ∷ v.d1 ∷ v.d2 ∷ []))
        (rw (day_part, u.month, v.month))

  year_part : lex_leb xs ys ≡ date_order f t
  year_part =
      rw (u.text, v.text)
        (rw (lex_leb-two_digits u.y1 u.y2 v.y1 v.y2 u.y1_digit u.y2_digit v.y1_digit v.y2_digit _ _)
          (rw
            (lex_leb-two_digits u.y3 u.y4 v.y3 v.y4 u.y3_digit u.y4_digit v.y3_digit v.y4_digit _ _)
            (rw (month_part, u.year, v.year)
              (hundreds _ _ _ _ _ (two_digits_bound u.y3 u.y4 u.y3_digit u.y4_digit)
                (two_digits_bound v.y3 v.y4 v.y3_digit v.y4_digit)))))

-- Of two texts that parse as dates, the first is after the second exactly when it is not before or
-- equal to it in the order of the dictionary.
pub after-lex :
    (from to : String) (f t : Date)
    → parse_date from ≡ ok f
    → parse_date to ≡ ok t
    → after f t ≡ not (lex_leb (codes from) (codes to))
unfolding parse_date
after-lex from to f t hf ht =
    rw (year_part (parse_codes-DateText (codes from) f hf) (parse_codes-DateText (codes to) t ht))
      (not-after f t)

check_range-ok :
    (a b : Result Date)
    → check_range a b ≡ ok tt
    → (f : Date) × (t : Date) × (a ≡ ok f) × (b ≡ ok t) × (after f t ≡ false)
check_range-ok (ok f) (ok t) h = (f, t, refl, refl, ground arith)
check_range-ok (ok f) (err e) h = cc
check_range-ok (err e) b h = cc

-- `validateRange` accepts a range exactly when both ends are dates of the calendar in the form
-- YYYY-MM-DD, and the text of the first is before or equal to the text of the second.
pub validate_range_iff :
    (from to : String)
    → (validate_range from to ≡ ok tt) ↔ (
        (f : Date) × (t : Date) × (parse_date from ≡ ok f)
        × (parse_date to ≡ ok t)
        × (lex_leb (codes from) (codes to) ≡ true))
unfolding validate_range
validate_range_iff from to = (
  λ h.
      let (f, t, hf, ht, ordered) = check_range-ok (parse_date from) (parse_date to) h in
      (f, t, hf, ht, ground (arith, after-lex from to f t hf ht)),
  λ (f, t, hf, ht, ordered).
      rw (hf, ht, check_range) (rw (after-lex from to f t hf ht) (rw ordered)),
)
