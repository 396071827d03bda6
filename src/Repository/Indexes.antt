-- ===== src/Repository/Indexes.antt =====
-- app/analytics/repository/indexes.go: the collections and their indexes.
use quickbite_analytics_serv.Base.{String, true, false, none, some, List, [], ◌∷◌}
use quickbite_analytics_serv.Exec.{Exec, ◌>>◌, pure}
use quickbite_analytics_serv.Mongo.{Mongo, IndexModel}

abbrev pub collection_agg_restaurant_day : String
collection_agg_restaurant_day = "agg_restaurant_day"

abbrev pub collection_agg_branch_day : String
collection_agg_branch_day = "agg_branch_day"

abbrev pub collection_agg_product_day : String
collection_agg_product_day = "agg_product_day"

abbrev pub collection_agg_platform_day : String
collection_agg_platform_day = "agg_platform_day"

abbrev pub collection_event_ids : String
collection_event_ids = "event_ids"

abbrev unique_index : String → List String → IndexModel
unique_index name keys = record {
  keys = keys;
  name = name;
  unique = true;
  expire_after_seconds = none;
}

abbrev range_index : String → List String → IndexModel
range_index name keys = record {
  keys = keys;
  name = name;
  unique = false;
  expire_after_seconds = none;
}

abbrev restaurant_day_indexes : List IndexModel
restaurant_day_indexes =
    unique_index "uq_restaurant_date" ("restaurant_id" ∷ "date" ∷ [])
    ∷ range_index "idx_date_restaurant" ("date" ∷ "restaurant_id" ∷ [])
    ∷ []

abbrev branch_day_indexes : List IndexModel
branch_day_indexes =
    unique_index "uq_branch_date" ("branch_id" ∷ "date" ∷ [])
    ∷ range_index "idx_date_branch" ("date" ∷ "branch_id" ∷ [])
    ∷ range_index "idx_restaurant_date" ("restaurant_id" ∷ "date" ∷ [])
    ∷ []

abbrev product_day_indexes : List IndexModel
product_day_indexes =
    unique_index "uq_restaurant_product_date" ("restaurant_id" ∷ "product_id" ∷ "date" ∷ [])
    ∷ range_index "idx_restaurant_date" ("restaurant_id" ∷ "date" ∷ [])
    ∷ range_index "idx_date_product" ("date" ∷ "product_id" ∷ [])
    ∷ []

abbrev platform_day_indexes : List IndexModel
platform_day_indexes =
    unique_index "uq_platform_date_country" ("date" ∷ "country_code" ∷ "currency" ∷ [])
    ∷ range_index "idx_country_date" ("country_code" ∷ "date" ∷ [])
    ∷ []

abbrev event_ids_indexes : List IndexModel
event_ids_indexes =
    unique_index "uq_event_id" ("event_id" ∷ [])
    ∷ record {
      keys = "received_at" ∷ [];
      name = "ttl_received_at";
      unique = false;
      expire_after_seconds = some 604800;
    }
    ∷ []

-- All that `EnsureIndexes` creates, in its order.
abbrev pub all_indexes : List (String × List IndexModel)
all_indexes =
    (collection_agg_restaurant_day, restaurant_day_indexes)
    ∷ (collection_agg_branch_day, branch_day_indexes)
    ∷ (collection_agg_product_day, product_day_indexes)
    ∷ (collection_agg_platform_day, platform_day_indexes)
    ∷ (collection_event_ids, event_ids_indexes)
    ∷ []

module _ {W : Type 0} (m : Mongo W) where
  create_all : List (String × List IndexModel) → Exec W (Unit {0})
  create_all [] = pure tt
  create_all ((c, models) ∷ rest) = do m.create_many c models; create_all rest

  -- `EnsureIndexes`
  pub ensure_indexes : Exec W (Unit {0})
  unfolding create_all
  ensure_indexes = create_all all_indexes
