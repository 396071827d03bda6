-- ===== src/Repository/Entity.antt =====
-- app/analytics/entity: the rows of the four aggregates, and how a document is decoded into them.
use quickbite_analytics_serv.Base.{String, List, [], ◌∷◌}
use quickbite_analytics_serv.Base.Int.{ℤ}
use quickbite_analytics_serv.Errors.{Result, ok, ◌>>=◌}
use quickbite_analytics_serv.Mongo.{Mongo, Document, Time}

pub record AggRestaurantDay : Type 0 where
  pub restaurant_id : ℤ
  pub date : String
  pub currency : String
  pub orders_count : ℤ
  pub revenue_sum : ℤ
  pub rejected_count : ℤ
  pub delivery_ms_sum : ℤ
  pub delivery_ms_count : ℤ
  pub updated_at : Time

pub record AggBranchDay : Type 0 where
  pub branch_id : ℤ
  pub restaurant_id : ℤ
  pub date : String
  pub currency : String
  pub orders_count : ℤ
  pub revenue_sum : ℤ
  pub rejected_count : ℤ
  pub delivery_ms_sum : ℤ
  pub delivery_ms_count : ℤ
  pub updated_at : Time

pub record AggProductDay : Type 0 where
  pub restaurant_id : ℤ
  pub product_id : ℤ
  pub date : String
  pub currency : String
  pub orders_count : ℤ
  pub units_sold : ℤ
  pub revenue_sum : ℤ
  pub updated_at : Time

pub record AggPlatformDay : Type 0 where
  pub date : String
  pub country_code : String
  pub currency : String
  pub orders_count : ℤ
  pub revenue_sum : ℤ
  pub rejected_count : ℤ
  pub delivery_ms_sum : ℤ
  pub delivery_ms_count : ℤ
  pub updated_at : Time

-- The loop `for cur.Next(ctx)` over the documents of a cursor: the first decode error ends it.
unfoldable pub decode_all : {A : Type 0} → (Document → Result A) → List Document → Result (List A)
decode_all f [] = ok []
decode_all f (d ∷ ds) = do row ← f d; rows ← decode_all f ds; ok (row ∷ rows)

module _ {W : Type 0} (m : Mongo W) where
  unfoldable pub decode_restaurant_day : Document → Result AggRestaurantDay
  decode_restaurant_day d = do
    restaurant_id ← m.decode_int (d "restaurant_id")
    date ← m.decode_str (d "date")
    currency ← m.decode_str (d "currency")
    orders_count ← m.decode_int (d "orders_count")
    revenue_sum ← m.decode_int (d "revenue_sum")
    rejected_count ← m.decode_int (d "rejected_count")
    delivery_ms_sum ← m.decode_int (d "delivery_ms_sum")
    delivery_ms_count ← m.decode_int (d "delivery_ms_count")
    updated_at ← m.decode_time (d "updated_at")
    ok (record {
      restaurant_id = restaurant_id;
      date = date;
      currency = currency;
      orders_count = orders_count;
      revenue_sum = revenue_sum;
      rejected_count = rejected_count;
      delivery_ms_sum = delivery_ms_sum;
      delivery_ms_count = delivery_ms_count;
      updated_at = updated_at;
    })

  unfoldable pub decode_branch_day : Document → Result AggBranchDay
  decode_branch_day d = do
    branch_id ← m.decode_int (d "branch_id")
    restaurant_id ← m.decode_int (d "restaurant_id")
    date ← m.decode_str (d "date")
    currency ← m.decode_str (d "currency")
    orders_count ← m.decode_int (d "orders_count")
    revenue_sum ← m.decode_int (d "revenue_sum")
    rejected_count ← m.decode_int (d "rejected_count")
    delivery_ms_sum ← m.decode_int (d "delivery_ms_sum")
    delivery_ms_count ← m.decode_int (d "delivery_ms_count")
    updated_at ← m.decode_time (d "updated_at")
    ok (record {
      branch_id = branch_id;
      restaurant_id = restaurant_id;
      date = date;
      currency = currency;
      orders_count = orders_count;
      revenue_sum = revenue_sum;
      rejected_count = rejected_count;
      delivery_ms_sum = delivery_ms_sum;
      delivery_ms_count = delivery_ms_count;
      updated_at = updated_at;
    })

  unfoldable pub decode_product_day : Document → Result AggProductDay
  decode_product_day d = do
    restaurant_id ← m.decode_int (d "restaurant_id")
    product_id ← m.decode_int (d "product_id")
    date ← m.decode_str (d "date")
    currency ← m.decode_str (d "currency")
    orders_count ← m.decode_int (d "orders_count")
    units_sold ← m.decode_int (d "units_sold")
    revenue_sum ← m.decode_int (d "revenue_sum")
    updated_at ← m.decode_time (d "updated_at")
    ok (record {
      restaurant_id = restaurant_id;
      product_id = product_id;
      date = date;
      currency = currency;
      orders_count = orders_count;
      units_sold = units_sold;
      revenue_sum = revenue_sum;
      updated_at = updated_at;
    })

  unfoldable pub decode_platform_day : Document → Result AggPlatformDay
  decode_platform_day d = do
    date ← m.decode_str (d "date")
    country_code ← m.decode_str (d "country_code")
    currency ← m.decode_str (d "currency")
    orders_count ← m.decode_int (d "orders_count")
    revenue_sum ← m.decode_int (d "revenue_sum")
    rejected_count ← m.decode_int (d "rejected_count")
    delivery_ms_sum ← m.decode_int (d "delivery_ms_sum")
    delivery_ms_count ← m.decode_int (d "delivery_ms_count")
    updated_at ← m.decode_time (d "updated_at")
    ok (record {
      date = date;
      country_code = country_code;
      currency = currency;
      orders_count = orders_count;
      revenue_sum = revenue_sum;
      rejected_count = rejected_count;
      delivery_ms_sum = delivery_ms_sum;
      delivery_ms_count = delivery_ms_count;
      updated_at = updated_at;
    })
