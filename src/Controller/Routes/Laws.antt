-- ===== src/Controller/Routes/Laws.antt =====
-- The callers that the routes of app/analytics/controller answer with data.
use quickbite_analytics_serv.Base.{
  String, ◌≡◌, sym, ap, ◌∙◌, true, false, ◌⊎◌, inl, inr, some, [], ◌∷◌, str_eq, eq_iff, Bool-cases,
}
use quickbite_analytics_serv.Errors.{Result, ok, Response, success}
use quickbite_analytics_serv.Types.{perm_restaurant_read, perm_branch_read, perm_product_read}
use quickbite_analytics_serv.Repository.Interfaces.{AnalyticsService}
use quickbite_analytics_serv.Rbac.Cache.{Settings, CacheWorld, has}
use quickbite_analytics_serv.Rbac.Claims.{Claims}
use quickbite_analytics_serv.Rbac.Guards.{
  Request, Handler, role_system_admin, role_restaurant_user, extract_token, one_of,
  require_permission, require_role,
}
use quickbite_analytics_serv.Rbac.Guards.Laws.{
  Guarded, require_auth-Guarded, require_permission-Guarded, require_role-Guarded,
}
use quickbite_analytics_serv.Service.Queries.{Float64}
use quickbite_analytics_serv.Controller.Responses.{Answer}
use quickbite_analytics_serv.Controller.Endpoints.{Parsers}
use quickbite_analytics_serv.Controller.Routes.{Route, wrap, endpoint, gate, mount_routes}

-- A guarded answer with data is the answer of the next handler.
pub passed :
    {S D : Type 0} (P : Request → S → Type 0) (next : Handler S D) (answer : Response D × S) (d : D)
    → Guarded P next answer
    → answer.0.body ≡ success d
    → (r : Request) × (s : S) × P r s × ((next r s).0.body ≡ success d)
passed P next answer d (inl refused) h = absurd (refused.1 d h)
passed P next answer d (inr (r, s, holds, same)) h =
    (r, s, holds, sym (ap (λ a. a.0.body) same) ∙ h)

module _ {W F : Type 0} (p : Parsers) (s : AnalyticsService W) (f : Float64 F)
    (verify : String → Result Claims) (cache : Settings W) where
  -- A caller with the permission, looked up in `c`.
  abbrev pub Permitted : String → Claims → CacheWorld W → Type 0
  Permitted name who c =
      (who.role ≡ role_system_admin)
      ⊎ ((who.role ≡ role_restaurant_user)
          × ((role : String) × (who.restaurant_role ≡ some role)
              × ((has cache role name c).0 ≡ ok true)))

  abbrev pub Entitled : Route → Claims → CacheWorld W → Type 0
  Entitled Route.restaurants_days = Permitted perm_restaurant_read
  Entitled Route.restaurants_failures = Permitted perm_restaurant_read
  Entitled Route.restaurants_delivery_avg = Permitted perm_restaurant_read
  Entitled Route.branches_days = Permitted perm_branch_read
  Entitled Route.products_days = Permitted perm_product_read
  Entitled Route.platform_days = λ who c. who.role ≡ role_system_admin
  Entitled Route.platform_active_restaurants = λ who c. who.role ≡ role_system_admin
  Entitled Route.restaurants_top = λ who c. who.role ≡ role_system_admin

  -- The request reached the endpoint with the claims `who`.
  abbrev Reached : Route → Claims → Request → CacheWorld W → Answer F → Type 0
  Reached route who r c d =
      Entitled route who c
      × ((c' : CacheWorld W) × ((wrap (endpoint p s f verify cache route) r c').0.body ≡ success d))

  one_admin :
      (role : String) → one_of (role_system_admin ∷ []) role ≡ true → role ≡ role_system_admin
  unfolding one_of
  one_admin role h = elim (Bool-cases (str_eq role_system_admin role)) [
    | inl same ↦ sym ((eq_iff role_system_admin role).0 same)
    | inr other ↦ let impossible : false ≡ true = rw other at h in cc
  ]

  permitted :
      (name : String) (next : Handler (CacheWorld W) (Answer F)) (who : Claims) (r : Request)
      (c : CacheWorld W) (d : Answer F)
      → r.claims ≡ some who
      → (require_permission (has cache) name next r c).0.body ≡ success d
      → Permitted name who c × ((c' : CacheWorld W) × ((next r c').0.body ≡ success d))
  permitted name next who r c d known h =
      let (r', c', (same, (who', known', why)), reached) =
        passed _ next _ d (require_permission-Guarded (has cache) name next r c) h in
      (by_way who' (some_eq who' (sym known' ∙ known)) c' why, (c', rw same at reached))
    where
      some_eq : (who' : Claims) → some who' ≡ some who → who' ≡ who
      some_eq who' h = cc

      by_way :
          (who' : Claims)
          → who' ≡ who
          → (c' : CacheWorld W)
          → (((who'.role ≡ role_system_admin) × (c' ≡ c))
              ⊎ ((who'.role ≡ role_restaurant_user)
                  × ((role : String) × (who'.restaurant_role ≡ some role)
                      × (has cache role name c ≡ (ok true, c')))))
          → Permitted name who c
      by_way who' e c' (inl (admin, _)) = inl (rw e at admin)
      by_way who' e c' (inr (user, (role, held, found))) =
          inr (rw e at user, (role, rw e at held, ap (λ a. a.0) found))

  only_admin :
      (next : Handler (CacheWorld W) (Answer F)) (who : Claims) (r : Request) (c : CacheWorld W)
      (d : Answer F)
      → r.claims ≡ some who
      → (require_role (role_system_admin ∷ []) next r c).0.body ≡ success d
      → (who.role ≡ role_system_admin) × ((c' : CacheWorld W) × ((next r c').0.body ≡ success d))
  only_admin next who r c d known h =
      let (r', c', (same, (who', known', held, _)), reached) =
        passed _ next _ d (require_role-Guarded (role_system_admin ∷ []) next r c) h in
      let e : who' ≡ who = some_eq who' (sym known' ∙ known) in
      (sym (ap (λ (x : Claims). x.role) e) ∙ one_admin who'.role held, (c', rw same at reached))
    where
      some_eq : (who' : Claims) → some who' ≡ some who → who' ≡ who
      some_eq who' h = cc

  -- what the gate of each route lets through
  pub gate_sound :
      (route : Route) (who : Claims) (r : Request) (c : CacheWorld W) (d : Answer F)
      → r.claims ≡ some who
      → (gate p s f verify cache route (wrap (endpoint p s f verify cache route)) r c).0.body
        ≡ success d
      → Reached route who r c d
  gate_sound Route.restaurants_days who r c d = permitted _ _ who r c d
  gate_sound Route.restaurants_failures who r c d = permitted _ _ who r c d
  gate_sound Route.restaurants_delivery_avg who r c d = permitted _ _ who r c d
  gate_sound Route.branches_days who r c d = permitted _ _ who r c d
  gate_sound Route.products_days who r c d = permitted _ _ who r c d
  gate_sound Route.platform_days who r c d = only_admin _ who r c d
  gate_sound Route.platform_active_restaurants who r c d = only_admin _ who r c d
  gate_sound Route.restaurants_top who r c d = only_admin _ who r c d

  -- On every route a request is answered with data only if its token was verified, and the claims of
  -- the token are those of a system administrator or, on the routes of restaurants, branches and
  -- products, of a restaurant user whose restaurant role has the route's permission.
  pub mount_routes_sound :
      (route : Route) (r : Request) (c : CacheWorld W) (d : Answer F)
      → (mount_routes p s f verify cache route r c).0.body ≡ success d
      → (who : Claims) × (verify (extract_token r) ≡ ok who) × Entitled route who c
  unfolding mount_routes
  mount_routes_sound route r c d h =
      let next = gate p s f verify cache route (wrap (endpoint p s f verify cache route)) in
      let (r', c', (who, known, verified, same), reached) =
        passed _ next _ d (require_auth-Guarded verify next r c) h in
      (
        who,
        verified,
        (gate_sound route who r' c d (ap (λ (x : Request). x.claims) known) (rw same at reached)).0,
      )
