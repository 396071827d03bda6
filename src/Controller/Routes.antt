-- ===== src/Controller/Routes.antt =====
-- app/analytics/controller/analytics.controller.go: `MountRoutes`. The state behind a request is the
-- permission cache beside the world of the service.
pub mod Laws
pub mod Tenant
pub mod Branch
use quickbite_analytics_serv.Base.{String, Bool, List, [], ◌∷◌}
use quickbite_analytics_serv.Errors.{Result, wrap_handler}
use quickbite_analytics_serv.Exec.{Exec}
use quickbite_analytics_serv.Types.{perm_restaurant_read, perm_branch_read, perm_product_read}
use quickbite_analytics_serv.Repository.Interfaces.{AnalyticsService}
use quickbite_analytics_serv.Rbac.Cache.{Settings, CacheWorld, has}
use quickbite_analytics_serv.Rbac.Claims.{Claims}
use quickbite_analytics_serv.Rbac.Guards.{
  Request, Handler, role_system_admin, require_auth, require_role, require_permission,
}
use quickbite_analytics_serv.Service.Queries.{Float64}
use quickbite_analytics_serv.Controller.Responses.{Answer}
use quickbite_analytics_serv.Controller.Endpoints.{
  Parsers, get_restaurant_days, get_restaurant_failures, get_restaurant_delivery_avg,
  get_branch_days, get_product_days, get_platform_days, get_active_restaurants, get_top_restaurants,
}

-- The paths under /analytics.
pub data Route : Type 0 where
  restaurants_days : Route
  restaurants_failures : Route
  restaurants_delivery_avg : Route
  branches_days : Route
  products_days : Route
  platform_days : Route
  platform_active_restaurants : Route
  restaurants_top : Route

-- `apperr.Wrap` of a handler of the controller
abbrev pub wrap : {W D : Type 0} → (Request → Exec W D) → Handler (CacheWorld W) D
wrap h r c = let (answer, w') = h r c.world in (wrap_handler answer, record c { world = w' })

module _ {W F : Type 0} (p : Parsers) (s : AnalyticsService W) (f : Float64 F)
    (verify : String → Result Claims) (cache : Settings W) where
  abbrev pub endpoint : Route → Request → Exec W (Answer F)
  endpoint Route.restaurants_days = get_restaurant_days p s f
  endpoint Route.restaurants_failures = get_restaurant_failures p s f
  endpoint Route.restaurants_delivery_avg = get_restaurant_delivery_avg p s f
  endpoint Route.branches_days = get_branch_days p s f
  endpoint Route.products_days = get_product_days p s f
  endpoint Route.platform_days = get_platform_days p s f
  endpoint Route.platform_active_restaurants = get_active_restaurants p s f
  endpoint Route.restaurants_top = get_top_restaurants p s f

  abbrev permission : String → Handler (CacheWorld W) (Answer F) → Handler (CacheWorld W) (Answer F)
  permission name = require_permission (has cache) name

  abbrev system_admin : Handler (CacheWorld W) (Answer F) → Handler (CacheWorld W) (Answer F)
  system_admin = require_role (role_system_admin ∷ [])

  -- the guard of the group that the route is in
  abbrev pub gate : Route → Handler (CacheWorld W) (Answer F) → Handler (CacheWorld W) (Answer F)
  gate Route.restaurants_days = permission perm_restaurant_read
  gate Route.restaurants_failures = permission perm_restaurant_read
  gate Route.restaurants_delivery_avg = permission perm_restaurant_read
  gate Route.branches_days = permission perm_branch_read
  gate Route.products_days = permission perm_product_read
  gate Route.platform_days = system_admin
  gate Route.platform_active_restaurants = system_admin
  gate Route.restaurants_top = system_admin

  unfoldable pub mount_routes : Route → Handler (CacheWorld W) (Answer F)
  mount_routes route = require_auth verify (gate route (wrap (endpoint route)))
