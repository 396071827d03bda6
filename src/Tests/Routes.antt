-- ===== src/Tests/Routes.antt =====
-- Two requests through the whole stack of guards.
use quickbite_analytics_serv.Base.{
  String, ◌≡◌, refl, ◌⊎◌, none, some, [], ◌∷◌, str_eq, if◌then◌else◌,
}
use quickbite_analytics_serv.Base.Int.{ℤ, pos}
use quickbite_analytics_serv.Errors.{Result, ok, wrap_handler}
use quickbite_analytics_serv.Repository.Stores.{new_analytics_service}
use quickbite_analytics_serv.Repository.Entity.{decode_all}
use quickbite_analytics_serv.Repository.RestaurantDay
use quickbite_analytics_serv.Repository.BranchDay
use quickbite_analytics_serv.Repository.PlatformDay
use quickbite_analytics_serv.Rbac.Cache.{Settings, get_for_role, has}
use quickbite_analytics_serv.Rbac.Claims.{Claims}
use quickbite_analytics_serv.Rbac.Guards.{
  Request, extract_token, require_auth, require_role, require_permission, one_of,
}
use quickbite_analytics_serv.Service.Access.{
  can_access_restaurant, assert_branch_access, owner_access, owner_decision,
}
use quickbite_analytics_serv.Service.Access.Laws.{BranchAccess}
use quickbite_analytics_serv.Service.Dates.{validate_range}
use quickbite_analytics_serv.Service.Queries.{
  query_restaurant_days, query_branch_days, query_platform_days,
}
use quickbite_analytics_serv.Controller.Responses.{restaurant_days, branch_days, platform_days}
use quickbite_analytics_serv.Controller.Endpoints.{
  Parsers, parse_positive_id, get_restaurant_days, get_branch_days, get_platform_days,
}
use quickbite_analytics_serv.Controller.Routes.{Route, mount_routes}
use quickbite_analytics_serv.Controller.Routes.Laws.{Entitled, mount_routes_sound}
use quickbite_analytics_serv.Controller.Routes.Branch.{branch_route_sound}
use quickbite_analytics_serv.Controller.Routes.Tenant.{restaurant_routes_sound}
use quickbite_analytics_serv.Tests.Memory.{World, memory}
use quickbite_analytics_serv.Tests.Queries.{owner, whole}
use quickbite_analytics_serv.Tests.Rbac.{settings, cold}

abbrev pub parsers : Parsers
parsers = record {
  parse_int = λ s. ok (pos 7);
  validate_range_tags = λ from to. ok tt;
  validate_limit_tags = λ from to limit. ok tt;
}

abbrev pub admin : Claims
admin = record {
  user_id = pos 1;
  email = "admin@example.com";
  role = "system_admin";
  restaurant_id = none;
  restaurant_role = none;
  branch_ids = [];
}

abbrev pub verify : String → Result Claims
verify token = if str_eq token "admin" then ok admin else ok owner

abbrev pub request : String → Request
request token = record {
  cookie_access_token = some token;
  header = λ name. "";
  url_param = λ name. "7";
  query = λ name. if str_eq name "limit" then "" else "2026-05-21";
  claims = none;
}

mount_routes_sound_example :
    (who : Claims) × (verify (extract_token (request "admin")) ≡ ok who)
    × Entitled parsers
        (new_analytics_service memory)
        whole
        verify
        settings
        Route.platform_days
        who
        cold
unfolding mount_routes require_auth require_role one_of get_platform_days query_platform_days
    validate_range PlatformDay.find_in_range decode_all wrap_handler
mount_routes_sound_example =
    mount_routes_sound parsers (new_analytics_service memory) whole verify settings
      Route.platform_days (request "admin") cold (platform_days []) refl

restaurant_routes_sound_example :
    (who : Claims) × (verify (extract_token (request "owner")) ≡ ok who)
    × ((id : ℤ) × (parse_positive_id parsers (request "owner") "restaurantId" ≡ ok id)
        × ((who.role ≡ "system_admin") ⊎ (who.restaurant_id ≡ some id)))
unfolding mount_routes require_auth require_permission get_for_role has get_restaurant_days
    query_restaurant_days can_access_restaurant validate_range
    RestaurantDay.find_by_restaurant_in_range decode_all wrap_handler
restaurant_routes_sound_example =
    restaurant_routes_sound parsers (new_analytics_service memory) whole verify settings
      Route.restaurants_days refl (request "owner") cold (restaurant_days []) refl

abbrev granting : Settings World
granting = record settings { get_role_permissions = λ role w. (ok ("core:branch:read" ∷ []), w) }

branch_route_sound_example :
    (who : Claims) × (verify (extract_token (request "owner")) ≡ ok who)
    × ((id : ℤ) × (w : World) × (parse_positive_id parsers (request "owner") "branchId" ≡ ok id)
        × BranchAccess (new_analytics_service memory).branch_repo who id w)
unfolding mount_routes require_auth require_permission get_for_role has get_branch_days
    query_branch_days assert_branch_access owner_access owner_decision validate_range
    BranchDay.find_restaurant_of_branch BranchDay.find_by_branch_in_range decode_all wrap_handler
branch_route_sound_example =
    branch_route_sound parsers (new_analytics_service memory) whole verify granting
      (request "owner") cold (branch_days []) refl
