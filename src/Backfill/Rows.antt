-- ===== src/Backfill/Rows.antt =====
-- internal/backfill/backfill.go: its records, the queries to Postgres, and `fetchItems`.
pub mod Laws
use quickbite_analytics_serv.Base.{
  ℕ, String, ◌≡◌, Bool, Option, none, some, List, [], ◌∷◌, ◌++◌, if◌then◌else◌,
}
use quickbite_analytics_serv.Base.Int.{ℤ, eqb_ℤ}
use quickbite_analytics_serv.Errors.{Err, wrap, Result, ok, err}
use quickbite_analytics_serv.Mongo.Values.{Time}
use quickbite_analytics_serv.Backfill.Literal.{int64_array}

pub record Config : Type 0 where
  pub pg_host : String
  pub pg_user : String
  pub pg_pass : String
  pub pg_db : String
  pub pg_port : ℤ
  pub region : String
  pub from_date : String
  pub to_date : String
  pub mongo_uri : String
  pub mongo_db : String
  pub batch_size : ℤ
  pub dry_run : Bool

pub record Stats : Type 0 where
  pub scanned : ℤ
  pub replayed : ℤ
  pub skipped_dup : ℤ
  pub failed : ℤ

pub record OrderRow : Type 0 where
  pub public_id : String
  pub region : String
  pub country_code : String
  pub restaurant_id : ℤ
  pub branch_id : ℤ
  pub currency : String
  pub total : ℤ
  pub created_at : Time
  pub rejected_at : Option Time
  pub delivered_at : Option Time

pub record ItemRow : Type 0 where
  pub order_id : ℤ
  pub order_created_at : Time
  pub product_id : ℤ
  pub quantity : ℤ
  pub line_total : ℤ

-- What a query of `database/sql` gives: the outcome of `Scan` on each row, and then `rows.Err()`.
pub record Cursor (A : Type 0) : Type 0 where
  pub rows : List (Result A)
  pub end_err : Result (Unit {0})

-- The two queries on the database of order-service; the second takes an array literal.
pub record Postgres : Type 0 where
  pub query_orders : String → String → Result (Cursor (ℤ × OrderRow))
  pub query_items : List ℕ → Result (Cursor ItemRow)

-- `map[int64][]itemRow`
abbrev pub ItemsByOrder : Type 0
ItemsByOrder = List (ℤ × List ItemRow)

-- `items[id]`, which is empty for a missing key
unfoldable pub items_of : ItemsByOrder → ℤ → List ItemRow
items_of [] id = []
items_of ((k, items) ∷ rest) id =
    let other = items_of rest id in if eqb_ℤ k id then items else other

-- `out[it.orderID] = append(out[it.orderID], it)`
unfoldable pub add_item : ItemRow → ItemsByOrder → ItemsByOrder
add_item it [] = (it.order_id, it ∷ []) ∷ []
add_item it ((k, items) ∷ rest) =
    let other = add_item it rest in
    if eqb_ℤ k it.order_id then (k, items ++ it ∷ []) ∷ rest else (k, items) ∷ other

unfoldable pub scan_items : List (Result ItemRow) → ItemsByOrder → Result ItemsByOrder
unfolding add_item
scan_items [] out = ok out
scan_items (err e ∷ rows) out = err e
scan_items (ok it ∷ rows) out = scan_items rows (add_item it out)

-- `return out, rows.Err()`: the caller drops the map when there is an error.
abbrev checked_end : Result (Unit {0}) → Result ItemsByOrder → Result ItemsByOrder
checked_end end_err (err e) = err e
checked_end (err e) (ok out) = err e
checked_end (ok _) (ok out) = ok out

abbrev scan_cursor : Result (Cursor ItemRow) → Result ItemsByOrder
scan_cursor (err e) = err e
scan_cursor (ok c) = checked_end c.end_err (scan_items c.rows [])

unfoldable pub fetch_items : Postgres → List ℤ → Result ItemsByOrder
unfolding scan_items
fetch_items pg [] = ok []
fetch_items pg (id ∷ ids) = scan_cursor (pg.query_items (int64_array (id ∷ ids)))
