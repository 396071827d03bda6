-- ===== src/Repository/Counting/Bulk.antt =====
-- The bulk write of app/analytics/repository/agg_product_day.repo.go, in the abstract rows.
use quickbite_analytics_serv.Base.{
  String, ◌≡◌, refl, Bool, true, false, Option, some, List, [], ◌∷◌, arith, str_eq, if◌then◌else◌,
  Bool-cases, inl, inr,
}
use quickbite_analytics_serv.Base.Int.{ℤ, pos, ◌+ℤ◌, add-zero_ℤ, zero-add_ℤ, +ℤ_assoc}
use quickbite_analytics_serv.Mongo.{Mongo, Time, Filter, Update, Document}
use quickbite_analytics_serv.Mongo.Rows.{
  Counter, counter_in, orders_count, upserted, upsert_at, bulk_at,
}
use quickbite_analytics_serv.Mongo.Laws.{UpsertLaws, all_keys, all_apart, apart}
use quickbite_analytics_serv.Types.{OrderItemInput}
use quickbite_analytics_serv.Repository.Indexes.{all_indexes, collection_agg_product_day}
use quickbite_analytics_serv.Repository.ProductDay.{
  product_key, item_update, item_models, bulk_increment_order_items,
}
use quickbite_analytics_serv.Repository.Interfaces.{Adds, distinct_products, product_apart}
use quickbite_analytics_serv.Rows.{Row, product, row_eq, total_for, total_for-nil}
use quickbite_analytics_serv.Rows.Changes.{item_changes}
use quickbite_analytics_serv.Repository.Counting.Upsert.{
  Labels, inc_of, counted_in, collection_of, key_of, row_after, counter_in-after,
}

item_update-Labels :
    (currency : String) (now : Time) (it : OrderItemInput) → Labels (item_update currency now it)
item_update-Labels currency now it orders_count = (refl, refl)
item_update-Labels currency now it _ = (refl, refl)

-- What one line of an order adds.
item_total :
    (r : Row) (currency date : String) (now : Time) (i : ℤ) (it : OrderItemInput)
    (items : List OrderItemInput) (k : Counter)
    → total_for r k (item_changes i date (it ∷ items))
      ≡ (if row_eq (product i it.product_id date) r
          then inc_of k (item_update currency now it)
          else pos 0)
        +ℤ total_for r k (item_changes i date items)
unfolding total_for
item_total r currency date now i it items orders_count =
    elim (Bool-cases (row_eq (product i it.product_id date) r)) [
      | inl same ↦ rw same (simp zero-add_ℤ)
      | inr other ↦ rw other (simp zero-add_ℤ)
    ]
item_total r currency date now i it items _ =
    elim (Bool-cases (row_eq (product i it.product_id date) r)) [
      | inl same ↦ rw same (simp zero-add_ℤ)
      | inr other ↦ rw other (simp zero-add_ℤ)
    ]

if-bulk_at :
    (b : Bool) (f : Filter) (u : Update) (ms : List (Filter × Update)) (g : Filter)
    (x : Option Document)
    → (if b then bulk_at ((f, u) ∷ ms) g x else x)
      ≡ (let y = (if b then upsert_at f u g x else x) in if b then bulk_at ms g y else y)
if-bulk_at true f u ms g x = refl
if-bulk_at false f u ms g x = refl

if_same : {A : Type 0} (b : Bool) (x : A) → (if b then x else x) ≡ x
if_same true x = refl
if_same false x = refl

module _ (i : ℤ) (date currency : String) (now : Time) where
  abbrev models : List OrderItemInput → List (Filter × Update)
  models = item_models i date currency now

  models-all_keys :
      (items : List OrderItemInput)
      → all_keys all_indexes collection_agg_product_day (models items) ≡ true
  models-all_keys [] = refl
  models-all_keys (it ∷ items) = models-all_keys items

  models-apart :
      (p : ℤ) (items : List OrderItemInput)
      → product_apart p items ≡ true
      → apart (product_key i p date) (models items) ≡ true
  models-apart p [] h = refl
  models-apart p (it ∷ items) h = ground (arith, models-apart p items)

  -- Distinct products make distinct keys, so the models address distinct rows.
  models-all_apart :
      (items : List OrderItemInput)
      → distinct_products items ≡ true
      → all_apart (models items) ≡ true
  models-all_apart [] h = refl
  models-all_apart (it ∷ items) h =
      ground (arith, models-apart it.product_id items, models-all_apart items)

  abbrev bulk_row : Row → List OrderItemInput → Option Document → Option Document
  bulk_row r items x =
      if str_eq collection_agg_product_day (collection_of r)
      then bulk_at (models items) (key_of r) x
      else x

  counter_in-bulk_row :
      (r : Row) (k : Counter) (items : List OrderItemInput) (x : Option Document)
      → counter_in k (bulk_row r items x)
        ≡ counter_in k x +ℤ total_for r k (item_changes i date items)
  counter_in-bulk_row r k [] x =
      rw (if_same (str_eq collection_agg_product_day (collection_of r)) x, total_for-nil r k)
        (rw add-zero_ℤ)
  counter_in-bulk_row r k (it ∷ items) x =
      let s : Row = product i it.product_id date in
      let u : Update = item_update currency now it in
      let y : Option Document = (if row_eq s r then some (upserted (key_of s) u x) else x) in
      rw
        (if-bulk_at (str_eq collection_agg_product_day (collection_of r)) (key_of s) u
          (models items) (key_of r) x)
        (rw (row_after s r u x) (
          rw (counter_in-bulk_row r k items y) (
            rw (item_total r currency date now i it items k) (
              rw (counter_in-after s r u k x (item_update-Labels currency now it))
                (+ℤ_assoc _ _ _)))))

module _ {W : Type 0} (m : Mongo W) (laws : UpsertLaws m all_indexes) where
  -- The items of an order, each product once, are added to the rows of their products.
  pub product_items :
      (i : ℤ) (date currency : String) (items : List OrderItemInput)
      → distinct_products items ≡ true
      → Adds
          (counted_in m laws)
          (bulk_increment_order_items m i date currency items)
          (item_changes i date items)
  unfolding bulk_increment_order_items
  product_items i date currency [] h w done r k = rw total_for-nil (rw add-zero_ℤ)
  product_items i date currency (it ∷ items) h w done r k =
      let now : Time = m.now w in
      rw
        (laws.bulk_write_row collection_agg_product_day
          (item_models i date currency now (it ∷ items)) w
          (models-all_keys i date currency now (it ∷ items))
          (models-all_apart i date currency now (it ∷ items) h) done (collection_of r) (key_of r))
        (counter_in-bulk_row i date currency now r k (it ∷ items)
          (laws.row w (collection_of r) (key_of r)))
