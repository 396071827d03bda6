-- ===== src/Repository/Stores.antt =====
-- lib/boot/boot.go provides the service with the repositories over the one database.
use quickbite_analytics_serv.Mongo.{Mongo}
use quickbite_analytics_serv.Repository.Interfaces.{
  RestaurantDayRepository, BranchDayRepository, ProductDayRepository, PlatformDayRepository,
  AnalyticsService,
}
use quickbite_analytics_serv.Repository.RestaurantDay
use quickbite_analytics_serv.Repository.BranchDay
use quickbite_analytics_serv.Repository.ProductDay
use quickbite_analytics_serv.Repository.PlatformDay

module _ {W : Type 0} (m : Mongo W) where
  abbrev pub agg_restaurant_day_repo : RestaurantDayRepository W
  agg_restaurant_day_repo = record {
    increment_order_row = RestaurantDay.increment_order_row m;
    increment_rejected_row = RestaurantDay.increment_rejected_row m;
    add_delivery = RestaurantDay.add_delivery m;
    find_by_restaurant_in_range = RestaurantDay.find_by_restaurant_in_range m;
    count_active_restaurants_in_range = RestaurantDay.count_active_restaurants_in_range m;
    top_restaurants_by_revenue = RestaurantDay.top_restaurants_by_revenue m;
  }

  abbrev pub agg_branch_day_repo : BranchDayRepository W
  agg_branch_day_repo = record {
    increment_order_row = BranchDay.increment_order_row m;
    increment_rejected_row = BranchDay.increment_rejected_row m;
    add_delivery = BranchDay.add_delivery m;
    find_restaurant_of_branch = BranchDay.find_restaurant_of_branch m;
    find_by_branch_in_range = BranchDay.find_by_branch_in_range m;
  }

  abbrev pub agg_product_day_repo : ProductDayRepository W
  agg_product_day_repo = record {
    bulk_increment_order_items = ProductDay.bulk_increment_order_items m;
    find_by_product_in_range = ProductDay.find_by_product_in_range m;
  }

  abbrev pub agg_platform_day_repo : PlatformDayRepository W
  agg_platform_day_repo = record {
    increment_order_row = PlatformDay.increment_order_row m;
    increment_rejected_row = PlatformDay.increment_rejected_row m;
    add_delivery = PlatformDay.add_delivery m;
    find_in_range = PlatformDay.find_in_range m;
  }

  -- `NewAnalyticsService`
  abbrev pub new_analytics_service : AnalyticsService W
  new_analytics_service = record {
    restaurant_repo = agg_restaurant_day_repo;
    branch_repo = agg_branch_day_repo;
    product_repo = agg_product_day_repo;
    platform_repo = agg_platform_day_repo;
  }
