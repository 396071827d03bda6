-- ===== src/Rows/Sums.antt =====
-- Rows, counters, and lists of changes to them.
use quickbite_analytics_serv.Base.{
  String, ◌≡◌, refl, Bool, true, false, ◌&&◌, List, [], ◌∷◌, ◌++◌, str_eq, if◌then◌else◌,
}
use quickbite_analytics_serv.Base.Int.{ℤ, pos, ◌+ℤ◌, eqb_ℤ, int_laws}
use quickbite_analytics_serv.Mongo.Rows.{
  Counter, orders_count, revenue_sum, rejected_count, delivery_ms_sum, delivery_ms_count,
  units_sold,
}

-- The key of a row: who, and the day.
pub data Row : Type 0 where
  restaurant branch : ℤ → String → Row
  product : ℤ → ℤ → String → Row
  platform : String → String → String → Row

abbrev pub row_eq : Row → Row → Bool
row_eq (restaurant i d) (restaurant j e) = eqb_ℤ i j && str_eq d e
row_eq (branch i d) (branch j e) = eqb_ℤ i j && str_eq d e
row_eq (product i p d) (product j q e) = eqb_ℤ i j && (eqb_ℤ p q && str_eq d e)
row_eq (platform d c y) (platform e a x) = str_eq d e && (str_eq c a && str_eq y x)
row_eq _ _ = false

abbrev pub counter_eq : Counter → Counter → Bool
counter_eq orders_count orders_count = true
counter_eq revenue_sum revenue_sum = true
counter_eq rejected_count rejected_count = true
counter_eq delivery_ms_sum delivery_ms_sum = true
counter_eq delivery_ms_count delivery_ms_count = true
counter_eq units_sold units_sold = true
counter_eq _ _ = false

-- An amount that is added to a counter of a row.
abbrev pub Change : Type 0
Change = Row × Counter × ℤ

-- What a list of changes adds to one counter.
unfoldable pub total_for : Row → Counter → List Change → ℤ
total_for r k [] = pos 0
total_for r k ((s, c, n) ∷ cs) =
    (if row_eq s r && counter_eq c k then n else pos 0) +ℤ total_for r k cs

pub total_for-nil : (r : Row) (k : Counter) → total_for r k [] ≡ pos 0
unfolding total_for
total_for-nil r k = refl

pub total_for-cons :
    (r : Row) (k : Counter) (s : Row) (c : Counter) (n : ℤ) (cs : List Change)
    → total_for r k ((s, c, n) ∷ cs)
      ≡ (if row_eq s r && counter_eq c k then n else pos 0) +ℤ total_for r k cs
unfolding total_for
total_for-cons r k s c n cs = refl

pub total_for-append :
    (r : Row) (k : Counter) (xs ys : List Change)
    → total_for r k (xs ++ ys) ≡ total_for r k xs +ℤ total_for r k ys
unfolding total_for
total_for-append r k [] ys = omega int_laws
total_for-append r k (x ∷ xs) ys = rw (total_for-append r k xs ys) (omega int_laws)
