-- ===== src/Repository/Counting/Upsert.antt =====
-- One upsert by the key of a row, whichever repository makes it.
use quickbite_analytics_serv.Base.{
  String, ◌≡◌, refl, true, Option, none, some, arith, str_eq, if◌then◌else◌, Bool-cases, inl, inr,
}
use quickbite_analytics_serv.Base.Int.{ℤ, pos, ◌+ℤ◌, add-zero_ℤ}
use quickbite_analytics_serv.Errors.{ok}
use quickbite_analytics_serv.Mongo.{Mongo, Filter, Update, Document, Bson}
use quickbite_analytics_serv.Mongo.Rows.{
  Counter, counter_in, field_name, orders_count, revenue_sum, upserted, upsert_at, assoc, equal_to,
  field_after, num,
}
use quickbite_analytics_serv.Mongo.Laws.{UpsertLaws, is_key}
use quickbite_analytics_serv.Repository.Indexes.{
  all_indexes, collection_agg_restaurant_day, collection_agg_branch_day, collection_agg_product_day,
  collection_agg_platform_day,
}
use quickbite_analytics_serv.Repository.RestaurantDay.{restaurant_key}
use quickbite_analytics_serv.Repository.BranchDay.{branch_key}
use quickbite_analytics_serv.Repository.ProductDay.{product_key}
use quickbite_analytics_serv.Repository.PlatformDay.{platform_key}
use quickbite_analytics_serv.Rows.{Row, restaurant, branch, product, platform, row_eq}

-- Where a row is stored.
abbrev pub collection_of : Row → String
collection_of (restaurant i d) = collection_agg_restaurant_day
collection_of (branch i d) = collection_agg_branch_day
collection_of (product i p d) = collection_agg_product_day
collection_of (platform d c y) = collection_agg_platform_day

abbrev pub key_of : Row → Filter
key_of (restaurant i d) = restaurant_key i d
key_of (branch i d) = branch_key i d
key_of (product i p d) = product_key i p d
key_of (platform d c y) = platform_key d c y

-- The filter of every upsert is a unique key of its collection.
pub key_of-is_key : (r : Row) → is_key all_indexes (collection_of r) (key_of r) ≡ true
key_of-is_key (restaurant i d) = refl
key_of-is_key (branch i d) = refl
key_of-is_key (product i p d) = refl
key_of-is_key (platform d c y) = refl

-- Two keys select one document exactly when the rows are the same.
pub row_after :
    (s r : Row) (u : Update) (x : Option Document)
    → (if str_eq (collection_of s) (collection_of r)
        then upsert_at (key_of s) u (key_of r) x
        else x)
      ≡ (if row_eq s r then some (upserted (key_of s) u x) else x)
row_after (restaurant i d) (restaurant j e) u x = ground arith
row_after (branch i d) (branch j e) u x = ground arith
row_after (product i p d) (product j q e) u x = ground arith
row_after (platform d c y) (platform e a z) u x = ground arith
row_after (restaurant i d) (branch j e) u x = refl
row_after (restaurant i d) (product j q e) u x = refl
row_after (restaurant i d) (platform e a z) u x = refl
row_after (branch i d) (restaurant j e) u x = refl
row_after (branch i d) (product j q e) u x = refl
row_after (branch i d) (platform e a z) u x = refl
row_after (product i p d) (restaurant j e) u x = refl
row_after (product i p d) (branch j e) u x = refl
row_after (product i p d) (platform e a z) u x = refl
row_after (platform d c y) (restaurant j e) u x = refl
row_after (platform d c y) (branch j e) u x = refl
row_after (platform d c y) (product j q e) u x = refl

abbrev pub amount : Option ℤ → ℤ
amount none = pos 0
amount (some n) = n

-- What an update adds to a counter.
abbrev pub inc_of : Counter → Update → ℤ
inc_of k u = amount (assoc (field_name k) u.inc)

-- The update labels no counter field outside of `$inc`.
abbrev pub Labels : Update → Type 0
Labels u =
    (k : Counter)
    → (assoc (field_name k) u.set ≡ none) × (assoc (field_name k) u.set_on_insert ≡ none)

key_of-no_counter : (r : Row) (k : Counter) → equal_to (assoc (field_name k) (key_of r)) ≡ none
key_of-no_counter (restaurant i d) orders_count = refl
key_of-no_counter (restaurant i d) revenue_sum = refl
key_of-no_counter (restaurant i d) _ = refl
key_of-no_counter (branch i d) orders_count = refl
key_of-no_counter (branch i d) _ = refl
key_of-no_counter (product i p d) orders_count = refl
key_of-no_counter (product i p d) _ = refl
key_of-no_counter (platform d c y) orders_count = refl
key_of-no_counter (platform d c y) _ = refl

num-field_after :
    (i : Option ℤ) (old : Option Bson) → num (field_after i none old) ≡ num old +ℤ amount i
num-field_after none old = rw add-zero_ℤ
num-field_after (some n) old = refl

counter_in-upserted :
    (s : Row) (u : Update) (k : Counter) (x : Option Document)
    → Labels u
    → counter_in k (some (upserted (key_of s) u x)) ≡ counter_in k x +ℤ inc_of k u
counter_in-upserted s u k none h =
    rw ((h k).0, (h k).1, key_of-no_counter s k) (num-field_after (assoc (field_name k) u.inc) none)
counter_in-upserted s u k (some d) h =
    rw (h k).0 (num-field_after (assoc (field_name k) u.inc) (d (field_name k)))

pub counter_in-after :
    (s r : Row) (u : Update) (k : Counter) (x : Option Document)
    → Labels u
    → counter_in k (if row_eq s r then some (upserted (key_of s) u x) else x)
      ≡ counter_in k x +ℤ (if row_eq s r then inc_of k u else pos 0)
counter_in-after s r u k x h = elim (Bool-cases (row_eq s r)) [
  | inl same ↦ rw same (counter_in-upserted s u k x h)
  | inr other ↦ rw other (rw add-zero_ℤ)
]

module _ {W : Type 0} (m : Mongo W) (laws : UpsertLaws m all_indexes) where
  abbrev pub counted_in : W → Row → Counter → ℤ
  counted_in w r k = counter_in k (laws.row w (collection_of r) (key_of r))

  -- An upsert by the key of `s` adds its `$inc` to the counters of `s`, and nothing elsewhere.
  pub upsert_adds :
      (s : Row) (u : Update) (w : W)
      → Labels u
      → (m.update_one (collection_of s) (key_of s) u w).0 ≡ ok tt
      → (r : Row) (k : Counter)
      → counted_in (m.update_one (collection_of s) (key_of s) u w).1 r k
        ≡ counted_in w r k +ℤ (if row_eq s r then inc_of k u else pos 0)
  upsert_adds s u w h done r k =
      rw
        (laws.update_one_row (collection_of s) (key_of s) u w (key_of-is_key s) done
          (collection_of r) (key_of r))
        (rw (row_after s r u (laws.row w (collection_of r) (key_of r)))
          (counter_in-after s r u k (laws.row w (collection_of r) (key_of r)) h))
