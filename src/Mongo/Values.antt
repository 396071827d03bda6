-- ===== src/Mongo/Values.antt =====
-- The values that the repositories hand to the MongoDB driver.
use quickbite_analytics_serv.Base.{ℕ, String, Bool, Option, List}
use quickbite_analytics_serv.Base.Int.{ℤ}

-- An instant, in nanoseconds from the Unix epoch.
abbrev pub Time : Type 0
Time = ℤ

pub data Bson : Type 0 where
  str : String → Bson
  int : ℤ → Bson
  time : Time → Bson

-- A document maps each of its fields to a value.
abbrev pub Document : Type 0
Document = String → Option Bson

-- One condition of a filter: equality, `$gte` with `$lte`, or `$gt`.
pub data Condition : Type 0 where
  is : Bson → Condition
  between : Bson → Bson → Condition
  above : Bson → Condition

abbrev pub Filter : Type 0
Filter = List (String × Condition)

-- `$inc`, `$setOnInsert` and `$set`
pub record Update : Type 0 where
  pub inc : List (String × ℤ)
  pub set_on_insert : List (String × Bson)
  pub set : List (String × Bson)

-- The accumulators of a `$group` stage.
pub data Accumulator : Type 0 where
  sum first : String → Accumulator

pub data Stage : Type 0 where
  match : Filter → Stage
  group : String → List (String × Accumulator) → Stage
  count : String → Stage
  sort_descending : String → Stage
  limit : ℤ → Stage

-- `mongo.IndexModel`; every key of the program is ascending.
pub record IndexModel : Type 0 where
  pub keys : List String
  pub name : String
  pub unique : Bool
  pub expire_after_seconds : Option ℕ
