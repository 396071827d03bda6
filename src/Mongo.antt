-- ===== src/Mongo.antt =====
-- The MongoDB driver as the repositories use it: filters, updates and documents are data, and the
-- calls are fields of a record that the model takes as a parameter.
pub mod Values
pub mod Rows
pub mod Client
pub mod Laws
pub use Values.*
use quickbite_analytics_serv.Base.{ℕ, String, Option, List}
use quickbite_analytics_serv.Base.Int.{ℤ}
use quickbite_analytics_serv.Errors.{Err, Result}
use quickbite_analytics_serv.Exec.{Exec}

-- The calls of the driver; `W` is the world outside of the process.
pub record Mongo (W : Type 0) : Type 0 where
  -- `time.Now().UTC()`
  pub now : W → Time
  -- `UpdateOne` with `SetUpsert(true)`
  pub update_one : String → Filter → Update → Exec W (Unit {0})
  -- `BulkWrite` of `UpdateOneModel`s with `SetUpsert(true)`, `SetOrdered(false)`
  pub bulk_write : String → List (Filter × Update) → Exec W (Unit {0})
  -- `Find` sorted ascending by the listed fields, and the cursor read to its end
  pub find : String → Filter → List String → Exec W (List Document)
  -- `FindOne`; `none` is `ErrNoDocuments`
  pub find_one : String → Filter → Exec W (Option Document)
  pub aggregate : String → List Stage → Exec W (List Document)
  -- `InsertOne`
  pub insert_one : String → List (String × Bson) → Exec W (Unit {0})
  -- `DeleteOne`
  pub delete_one : String → Filter → Exec W (Unit {0})
  -- how a field of a document is decoded into a field of a struct
  pub decode_int : Option Bson → Result ℤ
  pub decode_str : Option Bson → Result String
  pub decode_time : Option Bson → Result Time
  -- the codes of the `WriteErrors`, if `errors.As` finds a `WriteException`; else none
  pub write_errors : Err → List ℕ
  -- `Indexes().CreateMany`
  pub create_many : String → List IndexModel → Exec W (Unit {0})
