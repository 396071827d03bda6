-- ===== src/Repository/Interfaces.antt =====
-- app/analytics/types.go: the four repository interfaces that the service is built on, and what
-- the service relies on of their write methods, in terms of the abstract rows.
use quickbite_analytics_serv.Base.{String, ◌≡◌, Bool, true, not, ◌&&◌, List, [], ◌∷◌}
use quickbite_analytics_serv.Base.Int.{ℤ, ◌+ℤ◌, eqb_ℤ}
use quickbite_analytics_serv.Errors.{ok}
use quickbite_analytics_serv.Exec.{Exec}
use quickbite_analytics_serv.Mongo.Rows.{Counter}
use quickbite_analytics_serv.Types.{OrderItemInput}
use quickbite_analytics_serv.Repository.Entity.{
  AggRestaurantDay, AggBranchDay, AggProductDay, AggPlatformDay,
}
use quickbite_analytics_serv.Repository.RestaurantDay.{TopRestaurantsByRevenueRow}
use quickbite_analytics_serv.Rows.{Row, restaurant, branch, platform, Change, total_for}
use quickbite_analytics_serv.Rows.Changes.{
  order_change, rejected_change, delivery_change, item_changes,
}

pub record RestaurantDayRepository (W : Type 0) : Type 0 where
  pub increment_order_row : ℤ → String → String → ℤ → Exec W (Unit {0})
  pub increment_rejected_row : ℤ → String → String → Exec W (Unit {0})
  pub add_delivery : ℤ → String → String → ℤ → Exec W (Unit {0})
  pub find_by_restaurant_in_range : ℤ → String → String → Exec W (List AggRestaurantDay)
  pub count_active_restaurants_in_range : String → String → Exec W ℤ
  pub top_restaurants_by_revenue : String → String → ℤ → Exec W (List TopRestaurantsByRevenueRow)

pub record BranchDayRepository (W : Type 0) : Type 0 where
  pub increment_order_row : ℤ → ℤ → String → String → ℤ → Exec W (Unit {0})
  pub increment_rejected_row : ℤ → ℤ → String → String → Exec W (Unit {0})
  pub add_delivery : ℤ → ℤ → String → String → ℤ → Exec W (Unit {0})
  pub find_restaurant_of_branch : ℤ → Exec W ℤ
  pub find_by_branch_in_range : ℤ → String → String → Exec W (List AggBranchDay)

pub record ProductDayRepository (W : Type 0) : Type 0 where
  pub bulk_increment_order_items : ℤ → String → String → List OrderItemInput → Exec W (Unit {0})
  pub find_by_product_in_range : ℤ → String → String → Exec W (List AggProductDay)

pub record PlatformDayRepository (W : Type 0) : Type 0 where
  pub increment_order_row : String → String → String → ℤ → Exec W (Unit {0})
  pub increment_rejected_row : String → String → String → Exec W (Unit {0})
  pub add_delivery : String → String → String → ℤ → Exec W (Unit {0})
  pub find_in_range : String → String → Exec W (List AggPlatformDay)

-- `AnalyticsService`, less its logger: log lines are not modelled.
pub record AnalyticsService (W : Type 0) : Type 0 where
  pub restaurant_repo : RestaurantDayRepository W
  pub branch_repo : BranchDayRepository W
  pub product_repo : ProductDayRepository W
  pub platform_repo : PlatformDayRepository W

abbrev pub product_apart : ℤ → List OrderItemInput → Bool
product_apart p [] = true
product_apart p (it ∷ items) = not (eqb_ℤ p it.product_id) && product_apart p items

-- No product is listed twice.
abbrev pub distinct_products : List OrderItemInput → Bool
distinct_products [] = true
distinct_products (it ∷ items) = product_apart it.product_id items && distinct_products items

-- A write that succeeded adds its changes to the counters, and changes no other counter.
abbrev pub Adds : {W : Type 0} → (W → Row → Counter → ℤ) → Exec W (Unit {0}) → List Change → Type 0
Adds {W} counted call cs =
    (w : W)
    → (call w).0 ≡ ok tt
    → (r : Row) (k : Counter) → counted (call w).1 r k ≡ counted w r k +ℤ total_for r k cs

pub record RepositoryLaws {W : Type 0} (s : AnalyticsService W) : Type 0 where
  pub counted : W → Row → Counter → ℤ
  pub restaurant_order :
      (i : ℤ) (date currency : String) (n : ℤ)
      → Adds counted
          (s.restaurant_repo.increment_order_row i date currency n)
          (order_change (restaurant i date) n)
  pub restaurant_rejected :
      (i : ℤ) (date currency : String)
      → Adds counted
          (s.restaurant_repo.increment_rejected_row i date currency)
          (rejected_change (restaurant i date))
  pub restaurant_delivery :
      (i : ℤ) (date currency : String) (ms : ℤ)
      → Adds counted
          (s.restaurant_repo.add_delivery i date currency ms)
          (delivery_change (restaurant i date) ms)
  pub branch_order :
      (i owner : ℤ) (date currency : String) (n : ℤ)
      → Adds counted
          (s.branch_repo.increment_order_row i owner date currency n)
          (order_change (branch i date) n)
  pub branch_rejected :
      (i owner : ℤ) (date currency : String)
      → Adds counted
          (s.branch_repo.increment_rejected_row i owner date currency)
          (rejected_change (branch i date))
  pub branch_delivery :
      (i owner : ℤ) (date currency : String) (ms : ℤ)
      → Adds counted
          (s.branch_repo.add_delivery i owner date currency ms)
          (delivery_change (branch i date) ms)
  pub product_items :
      (i : ℤ) (date currency : String) (items : List OrderItemInput)
      → distinct_products items ≡ true
      → Adds counted
          (s.product_repo.bulk_increment_order_items i date currency items)
          (item_changes i date items)
  pub platform_order :
      (date country currency : String) (n : ℤ)
      → Adds counted
          (s.platform_repo.increment_order_row date country currency n)
          (order_change (platform date country currency) n)
  pub platform_rejected :
      (date country currency : String)
      → Adds counted
          (s.platform_repo.increment_rejected_row date country currency)
          (rejected_change (platform date country currency))
  pub platform_delivery :
      (date country currency : String) (ms : ℤ)
      → Adds counted
          (s.platform_repo.add_delivery date country currency ms)
          (delivery_change (platform date country currency) ms)
