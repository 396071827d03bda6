-- ===== src/Repository/Counting.antt =====
-- The write methods of app/analytics/repository in the terms of `RepositoryLaws`, over MongoDB.
pub mod Upsert
pub mod Bulk
use quickbite_analytics_serv.Base.{
  String, ◌≡◌, refl, Bool, true, false, none, List, [], ◌∷◌, if◌then◌else◌, Bool-cases, inl, inr,
}
use quickbite_analytics_serv.Base.Int.{ℤ, pos, ◌+ℤ◌, add-zero_ℤ, zero-add_ℤ}
use quickbite_analytics_serv.Errors.{ok}
use quickbite_analytics_serv.Exec.{Exec}
use quickbite_analytics_serv.Mongo.{Mongo, time, str, int}
use quickbite_analytics_serv.Mongo.Values.{Bson}
use quickbite_analytics_serv.Mongo.Rows.{
  Counter, field_name, orders_count, revenue_sum, rejected_count, delivery_ms_sum,
  delivery_ms_count, units_sold, assoc,
}
use quickbite_analytics_serv.Mongo.Laws.{UpsertLaws}
use quickbite_analytics_serv.Repository.Indexes.{all_indexes}
use quickbite_analytics_serv.Repository.RestaurantDay
use quickbite_analytics_serv.Repository.BranchDay
use quickbite_analytics_serv.Repository.PlatformDay
use quickbite_analytics_serv.Repository.Interfaces.{Adds, RepositoryLaws}
use quickbite_analytics_serv.Repository.Stores.{new_analytics_service}
use quickbite_analytics_serv.Rows.{Row, restaurant, branch, platform, row_eq, total_for}
use quickbite_analytics_serv.Rows.Changes.{order_change, rejected_change, delivery_change}
use quickbite_analytics_serv.Repository.Counting.Upsert.{
  Labels, amount, counted_in, upsert_adds, collection_of, key_of,
}
use quickbite_analytics_serv.Repository.Counting.Bulk.{product_items}

-- A label that names no counter.
abbrev NoCounter : List (String × Bson) → Type 0
NoCounter l = (k : Counter) → assoc (field_name k) l ≡ none

currency-NoCounter : (c : Bson) → NoCounter (("currency", c) ∷ [])
currency-NoCounter c orders_count = refl
currency-NoCounter c _ = refl

branch-NoCounter : (c r : Bson) → NoCounter (("currency", c) ∷ ("restaurant_id", r) ∷ [])
branch-NoCounter c r orders_count = refl
branch-NoCounter c r _ = refl

platform-NoCounter : (c y : Bson) → NoCounter (("country_code", c) ∷ ("currency", y) ∷ [])
platform-NoCounter c y orders_count = refl
platform-NoCounter c y _ = refl

updated_at-NoCounter : (t : Bson) → NoCounter (("updated_at", t) ∷ [])
updated_at-NoCounter t orders_count = refl
updated_at-NoCounter t _ = refl

labelled :
    (incs : List (String × ℤ)) (l : List (String × Bson)) (t : Bson)
    → NoCounter l
    → Labels (record { inc = incs; set_on_insert = l; set = ("updated_at", t) ∷ [] })
labelled incs l t h k = (updated_at-NoCounter t k, h k)

ruleset zero_laws = (zero-add_ℤ, add-zero_ℤ)

-- The `$inc` of the three kinds of change, and what it adds to one counter.
abbrev order_incs : ℤ → List (String × ℤ)
order_incs n = ("orders_count", pos 1) ∷ ("revenue_sum", n) ∷ []

abbrev rejected_incs : List (String × ℤ)
rejected_incs = ("rejected_count", pos 1) ∷ []

abbrev delivery_incs : ℤ → List (String × ℤ)
delivery_incs n = ("delivery_ms_sum", n) ∷ ("delivery_ms_count", pos 1) ∷ []

order_total :
    (s r : Row) (n : ℤ) (k : Counter)
    → total_for r k (order_change s n)
      ≡ (if row_eq s r then amount (assoc (field_name k) (order_incs n)) else pos 0)
unfolding total_for
order_total s r n orders_count = elim (Bool-cases (row_eq s r)) [
  | inl same ↦ rw same (simp zero_laws)
  | inr other ↦ rw other (simp zero_laws)
]
order_total s r n _ = elim (Bool-cases (row_eq s r)) [
  | inl same ↦ rw same (simp zero_laws)
  | inr other ↦ rw other (simp zero_laws)
]

rejected_total :
    (s r : Row) (k : Counter)
    → total_for r k (rejected_change s)
      ≡ (if row_eq s r then amount (assoc (field_name k) rejected_incs) else pos 0)
unfolding total_for
rejected_total s r orders_count = elim (Bool-cases (row_eq s r)) [
  | inl same ↦ rw same (simp zero_laws)
  | inr other ↦ rw other (simp zero_laws)
]
rejected_total s r _ = elim (Bool-cases (row_eq s r)) [
  | inl same ↦ rw same (simp zero_laws)
  | inr other ↦ rw other (simp zero_laws)
]

delivery_total :
    (s r : Row) (n : ℤ) (k : Counter)
    → total_for r k (delivery_change s n)
      ≡ (if row_eq s r then amount (assoc (field_name k) (delivery_incs n)) else pos 0)
unfolding total_for
delivery_total s r n orders_count = elim (Bool-cases (row_eq s r)) [
  | inl same ↦ rw same (simp zero_laws)
  | inr other ↦ rw other (simp zero_laws)
]
delivery_total s r n _ = elim (Bool-cases (row_eq s r)) [
  | inl same ↦ rw same (simp zero_laws)
  | inr other ↦ rw other (simp zero_laws)
]

module _ {W : Type 0} (m : Mongo W) (laws : UpsertLaws m all_indexes) where
  -- `upsert_adds` for an update in the form that all repositories share.
  write_adds :
      (s : Row) (incs : List (String × ℤ)) (l : List (String × Bson)) (t : Bson) (w : W)
      → NoCounter l
      → let call : Exec W (Unit {0}) =
          m.update_one
            (collection_of s)
            (key_of s)
            (record { inc = incs; set_on_insert = l; set = ("updated_at", t) ∷ [] }) in
        (call w).0 ≡ ok tt
        → (r : Row) (k : Counter)
        → counted_in m laws (call w).1 r k
          ≡ counted_in m laws w r k
            +ℤ (if row_eq s r then amount (assoc (field_name k) incs) else pos 0)
  write_adds s incs l t w h done r k =
      upsert_adds m laws s (record { inc = incs; set_on_insert = l; set = ("updated_at", t) ∷ [] })
        w (labelled incs l t h) done r k

  pub restaurant_order :
      (i : ℤ) (date currency : String) (n : ℤ)
      → Adds
          (counted_in m laws)
          (RestaurantDay.increment_order_row m i date currency n)
          (order_change (restaurant i date) n)
  unfolding RestaurantDay.increment_order_row
  restaurant_order i date currency n w done r k = rw (order_total (restaurant i date) r n k) (
      write_adds (restaurant i date) (order_incs n) (("currency", str currency) ∷ [])
        (time (m.now w)) w (currency-NoCounter (str currency)) done r k)

  pub restaurant_rejected :
      (i : ℤ) (date currency : String)
      → Adds
          (counted_in m laws)
          (RestaurantDay.increment_rejected_row m i date currency)
          (rejected_change (restaurant i date))
  unfolding RestaurantDay.increment_rejected_row
  restaurant_rejected i date currency w done r k = rw (rejected_total (restaurant i date) r k) (
      write_adds (restaurant i date) rejected_incs (("currency", str currency) ∷ [])
        (time (m.now w)) w (currency-NoCounter (str currency)) done r k)

  pub restaurant_delivery :
      (i : ℤ) (date currency : String) (n : ℤ)
      → Adds
          (counted_in m laws)
          (RestaurantDay.add_delivery m i date currency n)
          (delivery_change (restaurant i date) n)
  unfolding RestaurantDay.add_delivery
  restaurant_delivery i date currency n w done r k = rw (delivery_total (restaurant i date) r n k) (
      write_adds (restaurant i date) (delivery_incs n) (("currency", str currency) ∷ [])
        (time (m.now w)) w (currency-NoCounter (str currency)) done r k)

  pub branch_order :
      (i owner : ℤ) (date currency : String) (n : ℤ)
      → Adds
          (counted_in m laws)
          (BranchDay.increment_order_row m i owner date currency n)
          (order_change (branch i date) n)
  unfolding BranchDay.increment_order_row
  branch_order i owner date currency n w done r k = rw (order_total (branch i date) r n k) (
      write_adds (branch i date) (order_incs n)
        (("currency", str currency) ∷ ("restaurant_id", int owner) ∷ []) (time (m.now w)) w
        (branch-NoCounter (str currency) (int owner)) done r k)

  pub branch_rejected :
      (i owner : ℤ) (date currency : String)
      → Adds
          (counted_in m laws)
          (BranchDay.increment_rejected_row m i owner date currency)
          (rejected_change (branch i date))
  unfolding BranchDay.increment_rejected_row
  branch_rejected i owner date currency w done r k = rw (rejected_total (branch i date) r k) (
      write_adds (branch i date) rejected_incs
        (("currency", str currency) ∷ ("restaurant_id", int owner) ∷ []) (time (m.now w)) w
        (branch-NoCounter (str currency) (int owner)) done r k)

  pub branch_delivery :
      (i owner : ℤ) (date currency : String) (n : ℤ)
      → Adds
          (counted_in m laws)
          (BranchDay.add_delivery m i owner date currency n)
          (delivery_change (branch i date) n)
  unfolding BranchDay.add_delivery
  branch_delivery i owner date currency n w done r k = rw (delivery_total (branch i date) r n k) (
      write_adds (branch i date) (delivery_incs n)
        (("currency", str currency) ∷ ("restaurant_id", int owner) ∷ []) (time (m.now w)) w
        (branch-NoCounter (str currency) (int owner)) done r k)

  pub platform_order :
      (date country currency : String) (n : ℤ)
      → Adds
          (counted_in m laws)
          (PlatformDay.increment_order_row m date country currency n)
          (order_change (platform date country currency) n)
  unfolding PlatformDay.increment_order_row
  platform_order date country currency n w done r k =
      rw (order_total (platform date country currency) r n k) (
        write_adds (platform date country currency) (order_incs n)
          (("country_code", str country) ∷ ("currency", str currency) ∷ []) (time (m.now w)) w
          (platform-NoCounter (str country) (str currency)) done r k)

  pub platform_rejected :
      (date country currency : String)
      → Adds
          (counted_in m laws)
          (PlatformDay.increment_rejected_row m date country currency)
          (rejected_change (platform date country currency))
  unfolding PlatformDay.increment_rejected_row
  platform_rejected date country currency w done r k =
      rw (rejected_total (platform date country currency) r k) (
        write_adds (platform date country currency) rejected_incs
          (("country_code", str country) ∷ ("currency", str currency) ∷ []) (time (m.now w)) w
          (platform-NoCounter (str country) (str currency)) done r k)

  pub platform_delivery :
      (date country currency : String) (n : ℤ)
      → Adds
          (counted_in m laws)
          (PlatformDay.add_delivery m date country currency n)
          (delivery_change (platform date country currency) n)
  unfolding PlatformDay.add_delivery
  platform_delivery date country currency n w done r k =
      rw (delivery_total (platform date country currency) r n k) (
        write_adds (platform date country currency) (delivery_incs n)
          (("country_code", str country) ∷ ("currency", str currency) ∷ []) (time (m.now w)) w
          (platform-NoCounter (str country) (str currency)) done r k)

  -- The service over MongoDB meets the laws of its repositories.
  unfoldable pub mongo_laws : RepositoryLaws (new_analytics_service m)
  mongo_laws = record {
    counted = counted_in m laws;
    restaurant_order = restaurant_order;
    restaurant_rejected = restaurant_rejected;
    restaurant_delivery = restaurant_delivery;
    branch_order = branch_order;
    branch_rejected = branch_rejected;
    branch_delivery = branch_delivery;
    product_items = product_items m laws;
    platform_order = platform_order;
    platform_rejected = platform_rejected;
    platform_delivery = platform_delivery;
  }
