-- ===== src/Mongo/Rows.antt =====
-- What MongoDB documents of one row: which document an upsert leaves behind, and which rows two
-- filters on a unique key select. Counters are the numeric fields of the aggregates.
use quickbite_analytics_serv.Base.{
  String, Bool, true, false, ◌&&◌, Option, none, some, List, [], ◌∷◌, str_eq, if◌then◌else◌,
}
use quickbite_analytics_serv.Base.Int.{ℤ, pos, ◌+ℤ◌, eqb_ℤ}
use quickbite_analytics_serv.Mongo.Values.{
  Bson, str, int, time, Document, Condition, is, between, above, Filter, Update,
}

abbrev pub assoc : {V : Type 0} → String → List (String × V) → Option V
assoc k [] = none
assoc k ((j, v) ∷ l) = if str_eq j k then some v else assoc k l

abbrev pub bson_eq : Bson → Bson → Bool
bson_eq (str s) (str t) = str_eq s t
bson_eq (int m) (int n) = eqb_ℤ m n
bson_eq (time m) (time n) = eqb_ℤ m n
bson_eq _ _ = false

abbrev pub condition_eq : Condition → Condition → Bool
condition_eq (is a) (is b) = bson_eq a b
condition_eq (between a b) (between c d) = bson_eq a c && bson_eq b d
condition_eq (above a) (above b) = bson_eq a b
condition_eq _ _ = false

abbrev pub filter_eq : Filter → Filter → Bool
filter_eq [] [] = true
filter_eq ((j, c) ∷ f) ((k, d) ∷ g) = (str_eq j k && condition_eq c d) && filter_eq f g
filter_eq _ _ = false

-- The number in a field; a field that is missing counts as 0, as `$inc` takes it.
abbrev pub num : Option Bson → ℤ
num (some (int n)) = n
num _ = pos 0

abbrev pub equal_to : Option Condition → Option Bson
equal_to (some (is b)) = some b
equal_to _ = none

abbrev pub or_else : {A : Type 0} → Option A → Option A → Option A
or_else (some a) b = some a
or_else none b = b

-- A field after `$inc` and `$set`, from its value before.
abbrev pub field_after : Option ℤ → Option Bson → Option Bson → Option Bson
field_after (some n) set old = some (int (num old +ℤ n))
field_after none (some b) old = some b
field_after none none old = old

-- The document that an upsert leaves: a new one has the filter's equalities and `$setOnInsert`.
abbrev pub upserted : Filter → Update → Option Document → Document
upserted f u none k =
    field_after (assoc k u.inc) (assoc k u.set)
      (or_else (assoc k u.set_on_insert) (equal_to (assoc k f)))
upserted f u (some d) k = field_after (assoc k u.inc) (assoc k u.set) (d k)

-- A row after one upsert on the same collection.
abbrev pub upsert_at : Filter → Update → Filter → Option Document → Option Document
upsert_at f u g r = if filter_eq f g then some (upserted f u r) else r

-- A row after the upserts of a bulk write.
abbrev pub bulk_at : List (Filter × Update) → Filter → Option Document → Option Document
bulk_at [] g r = r
bulk_at ((f, u) ∷ ms) g r = bulk_at ms g (upsert_at f u g r)

pub data Counter : Type 0 where
  orders_count revenue_sum rejected_count delivery_ms_sum delivery_ms_count units_sold : Counter

abbrev pub field_name : Counter → String
field_name orders_count = "orders_count"
field_name revenue_sum = "revenue_sum"
field_name rejected_count = "rejected_count"
field_name delivery_ms_sum = "delivery_ms_sum"
field_name delivery_ms_count = "delivery_ms_count"
field_name units_sold = "units_sold"

-- The value of a counter in a row; a row that is not there counts 0.
abbrev pub counter_in : Counter → Option Document → ℤ
counter_in k none = pos 0
counter_in k (some d) = num (d (field_name k))
