-- ===== src/Service/Queries/Laws.antt =====
-- The queries of app/analytics/service/analytics.service.go: tenants, ranges, averages and limits.
use native.Mathlib.Nat.{mul_comm, div-mul-le_self, lt-mul-div-succ}
use quickbite_analytics_serv.Base.{
  ◌||◌, ◌⊎◌, inl, inr, Bool-cases, ℕ, suc, String, ◌+◌, ◌*◌, ◌/◌, ◌≤◌, ◌<◌, ◌≡◌, refl, Bool, true,
  false, Option, arith,
}
use quickbite_analytics_serv.Base.Int.{ℤ, pos, negsuc, ◌≤ℤ◌, leb_ℤ, ltb_ℤ, eqb_ℤ}
use quickbite_analytics_serv.Base.Int64.{neg_of, div64}
use quickbite_analytics_serv.Errors.{app, err}
use quickbite_analytics_serv.Types.{err_tenant_mismatch}
use quickbite_analytics_serv.Rbac.Claims.{Claims}
use quickbite_analytics_serv.Repository.Interfaces.{AnalyticsService}
use quickbite_analytics_serv.Service.Access.{can_access_restaurant}
use quickbite_analytics_serv.Service.Queries.{
  guarded_avg, safe_avg, Float64, effective_limit, query_restaurant_days, query_failures,
  query_delivery_avg,
}

-- Over a positive count the average is the division.
safe_avg-divides :
    (sum : ℤ) (count : ℕ) (q : ℤ)
    → 0 < count
    → ((nonzero : eqb_ℤ (pos count) (pos 0) ≡ false) → div64 sum (pos count) nonzero ≡ q)
    → safe_avg sum (pos count) ≡ q
unfolding safe_avg
safe_avg-divides sum count q h divided = by_test (eqb_ℤ (pos count) (pos 0)) refl
  where
    by_test :
        (b : Bool) (test : eqb_ℤ (pos count) (pos 0) ≡ b) → guarded_avg sum (pos count) b test ≡ q
    by_test true zero =
        let none_counted : count ≡ 0 = ground arith in
        let impossible : 0 < 0 = rw none_counted at h in absurd (omega (arith, impossible))
    by_test false nonzero = divided nonzero

-- An average of a sum of 0 or more over a positive count is the exact quotient, rounded down.
safe_avg_bounds :
    (sum count : ℕ)
    → 0 < count
    → (q : ℕ) × (safe_avg (pos sum) (pos count) ≡ pos q)
      × (q * count ≤ sum)
      × (sum < (q + 1) * count)
unfolding div64
safe_avg_bounds sum count h = (
  sum / count,
  safe_avg-divides (pos sum) count _ h (λ nonzero. refl),
  div-mul-le_self sum count,
  rw (mul_comm (sum / count + 1) count) (lt-mul-div-succ sum h),
)

abbrev pub magnitude : ℤ → ℕ
magnitude (pos n) = n
magnitude (negsuc n) = suc n

-- `q` with the sign of `z`
abbrev pub with_sign : ℤ → ℕ → ℤ
with_sign (pos _) q = pos q
with_sign (negsuc _) q = neg_of q

-- The average over no rows is 0. The average of any sum over a positive count has the sign of the
-- sum, and in magnitude it is the exact quotient, rounded down: it is rounded toward 0.
pub safe_avg_truncates :
    (sum : ℤ) (count : ℕ)
    → 0 < count
    → (safe_avg sum (pos 0) ≡ pos 0)
      × (q : ℕ) × (safe_avg sum (pos count) ≡ with_sign sum q)
      × (q * count ≤ magnitude sum)
      × (magnitude sum < (q + 1) * count)
unfolding safe_avg div64
safe_avg_truncates (pos n) count h =
    let (q, same, low, high) = safe_avg_bounds n count h in (refl, q, same, low, high)
safe_avg_truncates (negsuc n) count h = (
  refl,
  suc n / count,
  safe_avg-divides (negsuc n) count _ h (λ nonzero. refl),
  div-mul-le_self (suc n) count,
  rw (mul_comm (suc n / count + 1) count) (lt-mul-div-succ (suc n) h),
)

-- Between 1 and 100 rows are asked for: the limit of the query if it is in that range, and else 10.
pub effective_limit_bounds :
    (limit : ℤ)
    → (pos 1 ≤ℤ effective_limit limit)
      × (effective_limit limit ≤ℤ pos 100)
      × ((effective_limit limit ≡ limit)
          ⊎ ((effective_limit limit ≡ pos 10) × ((limit ≤ℤ pos 0) ⊎ (pos 101 ≤ℤ limit))))
unfolding effective_limit
effective_limit_bounds limit =
    (ground arith, ground arith, chosen (Bool-cases (leb_ℤ limit (pos 0) || ltb_ℤ (pos 100) limit)))
  where
    chosen :
        ((leb_ℤ limit (pos 0) || ltb_ℤ (pos 100) limit) ≡ true)
          ⊎ ((leb_ℤ limit (pos 0) || ltb_ℤ (pos 100) limit) ≡ false)
        → (effective_limit limit ≡ limit)
          ⊎ ((effective_limit limit ≡ pos 10) × ((limit ≤ℤ pos 0) ⊎ (pos 101 ≤ℤ limit)))
    chosen (inl out) = inr (
      rw out refl,
      elim (Bool-cases (leb_ℤ limit (pos 0))) [
        | inl low ↦ inl (ground arith)
        | inr high ↦ inr (ground arith)
      ],
    )
    chosen (inr kept) = inl (rw kept refl)

-- If the caller may not see the restaurant, the three restaurant queries answer TENANT_MISMATCH,
-- whatever the range, and leave the world as it is.
pub restaurant_queries_refused :
    {W F : Type 0} (s : AnalyticsService W) (ctx : Option Claims) (f : Float64 F) (id : ℤ)
    (from to : String) (w : W)
    → can_access_restaurant ctx id ≡ false
    → (query_restaurant_days s ctx (record { restaurant_id = id; from = from; to = to }) w
        ≡ (err (app err_tenant_mismatch), w))
      × (query_failures s ctx f (record { restaurant_id = id; from = from; to = to }) w
          ≡ (err (app err_tenant_mismatch), w))
      × (query_delivery_avg s ctx (record { restaurant_id = id; from = from; to = to }) w
          ≡ (err (app err_tenant_mismatch), w))
unfolding query_restaurant_days query_failures query_delivery_avg
restaurant_queries_refused s ctx f id from to w denied = (rw denied, rw denied, rw denied)
