-- ===== src/Controller/Routes/Tenant.antt =====
-- The three routes of a restaurant in app/analytics/controller, from the token to the tenant.
use quickbite_analytics_serv.Base.{
  String, ◌≡◌, refl, sym, ap, ◌∙◌, Bool, true, false, ◌⊎◌, inl, inr, Option, none, some, Bool-cases,
}
use quickbite_analytics_serv.Base.Int.{ℤ}
use quickbite_analytics_serv.Errors.{
  app, Result, ok, err, success, wrap_handler, render_error, as_app, AppError, render_found,
}
use quickbite_analytics_serv.Exec.{Exec, ◌>>=◌, ◌>>◌, pure, lift, continue}
use quickbite_analytics_serv.Types.{err_tenant_mismatch}
use quickbite_analytics_serv.Repository.Interfaces.{AnalyticsService}
use quickbite_analytics_serv.Rbac.Cache.{Settings, CacheWorld}
use quickbite_analytics_serv.Rbac.Claims.{Claims}
use quickbite_analytics_serv.Rbac.Guards.{Request, extract_token}
use quickbite_analytics_serv.Rbac.Guards.Laws.{require_auth-Guarded}
use quickbite_analytics_serv.Service.Access.{can_access_restaurant}
use quickbite_analytics_serv.Service.Access.Laws.{can_access_restaurant_iff}
use quickbite_analytics_serv.Service.Queries.{Float64}
use quickbite_analytics_serv.Service.Queries.Laws.{restaurant_queries_refused}
use quickbite_analytics_serv.Controller.Responses.{Answer}
use quickbite_analytics_serv.Controller.Endpoints.{
  Parsers, parse_positive_id, check_range, get_restaurant_days, get_restaurant_failures,
  get_restaurant_delivery_avg,
}
use quickbite_analytics_serv.Controller.Routes.{Route, wrap, endpoint, gate, mount_routes}
use quickbite_analytics_serv.Controller.Routes.Laws.{passed, gate_sound}

-- Data comes only from a handler that succeeded.
pub wrap_handler-success :
    {D : Type 0} (answer : Result D) (d : D)
    → (wrap_handler answer).body ≡ success d
    → answer ≡ ok d
unfolding wrap_handler render_error
wrap_handler-success (ok a) d h = let e : a ≡ d = cc in ap ok e
wrap_handler-success (err e) d h = rendered (as_app e) h
  where
    rendered : (found : Option AppError) → (render_found found).body ≡ success d → err e ≡ ok d
    rendered none k = cc
    rendered (some a) k = cc

module _ {W : Type 0} (p : Parsers) (r : Request) (w : W) where
  -- what a handler that reads a restaurant does before the query
  abbrev Tenant : Type 0
  Tenant =
      (id : ℤ) × (parse_positive_id p r "restaurantId" ≡ ok id)
      × (can_access_restaurant r.claims id ≡ true)

  tenant_only :
      {A D : Type 0} (query : ℤ → Exec W A) (answer : A → D) (d : D)
      → ((id : ℤ)
          → can_access_restaurant r.claims id ≡ false
          → query id w ≡ (err (app err_tenant_mismatch), w))
      → ((lift (parse_positive_id p r "restaurantId") >>= λ id.
            lift (check_range p r) >> (query id >>= λ rows. pure (answer rows)))
          w).0
        ≡ ok d
      → Tenant
  tenant_only query answer d refused h = by_id (parse_positive_id p r "restaurantId") refl h
    where
      by_id :
          (parsed : Result ℤ)
          → parse_positive_id p r "restaurantId" ≡ parsed
          → (continue parsed
              (λ id. lift (check_range p r) >> (query id >>= λ rows. pure (answer rows)))
              w).0
            ≡ ok d
          → Tenant
      by_id (err e) k done = cc
      by_id (ok id) k done = elim (Bool-cases (can_access_restaurant r.claims id)) [
        | inl allowed ↦ (id, k, allowed)
        | inr denied ↦ by_range denied (check_range p r) done
      ]
        where
          by_range :
              can_access_restaurant r.claims id ≡ false
              → (range : Result (Unit {0}))
              → (continue range (λ _. query id >>= λ rows. pure (answer rows)) w).0 ≡ ok d
              → Tenant
          by_range denied (err e) done' = cc
          by_range denied (ok _) done' =
              let failed : err (app err_tenant_mismatch) ≡ ok d = rw (refused id denied) at done' in
              cc

abbrev pub is_restaurant : Route → Bool
is_restaurant Route.restaurants_days = true
is_restaurant Route.restaurants_failures = true
is_restaurant Route.restaurants_delivery_avg = true
is_restaurant _ = false

module _ {W F : Type 0} (p : Parsers) (s : AnalyticsService W) (f : Float64 F)
    (verify : String → Result Claims) (cache : Settings W) where
  endpoint-Tenant :
      (route : Route)
      → is_restaurant route ≡ true
      → (r : Request) (w : W) (d : Answer F) → (endpoint p s f verify cache route r w).0 ≡ ok d
      → Tenant p r w
  unfolding get_restaurant_days get_restaurant_failures get_restaurant_delivery_avg
  endpoint-Tenant Route.restaurants_days _ r w d = tenant_only p r w _ _ d (λ id denied.
      (restaurant_queries_refused s r.claims f id (r.query "from") (r.query "to") w denied).0)
  endpoint-Tenant Route.restaurants_failures _ r w d = tenant_only p r w _ _ d (λ id denied.
      (restaurant_queries_refused s r.claims f id (r.query "from") (r.query "to") w denied).1)
  endpoint-Tenant Route.restaurants_delivery_avg _ r w d = tenant_only p r w _ _ d (λ id denied.
      (restaurant_queries_refused s r.claims f id (r.query "from") (r.query "to") w denied).2)
  endpoint-Tenant Route.branches_days h r w d = cc
  endpoint-Tenant Route.products_days h r w d = cc
  endpoint-Tenant Route.platform_days h r w d = cc
  endpoint-Tenant Route.platform_active_restaurants h r w d = cc
  endpoint-Tenant Route.restaurants_top h r w d = cc

  -- The three routes of a restaurant answer with data only if the token was verified, the path's
  -- restaurant id was accepted, and the claims of the token are those of a system administrator or
  -- name that restaurant.
  pub restaurant_routes_sound :
      (route : Route)
      → is_restaurant route ≡ true
      → (r : Request) (c : CacheWorld W) (d : Answer F)
      → (mount_routes p s f verify cache route r c).0.body ≡ success d
      → (who : Claims) × (verify (extract_token r) ≡ ok who)
        × ((id : ℤ) × (parse_positive_id p r "restaurantId" ≡ ok id)
            × ((who.role ≡ "system_admin") ⊎ (who.restaurant_id ≡ some id)))
  unfolding mount_routes parse_positive_id
  restaurant_routes_sound route h r c d done =
      let next = gate p s f verify cache route (wrap (endpoint p s f verify cache route)) in
      let (r', c', (who, known, verified, same), reached) =
        passed _ next _ d (require_auth-Guarded verify next r c) done in
      let (_, (c'', answered)) =
        gate_sound p s f verify cache route who r' c' d (ap (λ (x : Request). x.claims) known)
          reached in
      let (id, parsed, allowed) =
        endpoint-Tenant route h r' c''.world d (wrap_handler-success _ d answered) in
      let (who', held, why) = (can_access_restaurant_iff r'.claims id).0 allowed in
      let e : some who' ≡ some who = sym held ∙ ap (λ (x : Request). x.claims) known in
      (
        who,
        verified,
        (
          id,
          sym (ap (λ (x : Request). parse_positive_id p x "restaurantId") known) ∙ parsed,
          member who' id why e,
        ),
      )
    where
      member :
          {who : Claims} (who' : Claims) (id : ℤ)
          → (who'.role ≡ "system_admin") ⊎ (who'.restaurant_id ≡ some id)
          → some who' ≡ some who
          → (who.role ≡ "system_admin") ⊎ (who.restaurant_id ≡ some id)
      member {who = who} who' id why e = let same : who' ≡ who = cc in rw same at why
