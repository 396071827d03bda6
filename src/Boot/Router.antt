-- ===== src/Boot/Router.antt =====
-- lib/boot/boot.go: `NewRouter` and `healthHandler`. The router of chi, which finds the handler of a
-- path, is given by the paths as data.
pub mod Laws
use quickbite_analytics_serv.Base.{String}
use quickbite_analytics_serv.Errors.{Result, Body, success, failure, Response, send_success}
use quickbite_analytics_serv.Repository.Interfaces.{AnalyticsService}
use quickbite_analytics_serv.Rbac.Cache.{Settings, CacheWorld}
use quickbite_analytics_serv.Rbac.Claims.{Claims}
use quickbite_analytics_serv.Rbac.Guards.{Request, Handler}
use quickbite_analytics_serv.Service.Queries.{Float64}
use quickbite_analytics_serv.Controller.Responses.{Answer}
use quickbite_analytics_serv.Controller.Endpoints.{Parsers}
use quickbite_analytics_serv.Controller.Routes.{Route, mount_routes}
use quickbite_analytics_serv.Boot.Correlation.{Outside, Reply, correlation, access_log}

-- GET of /health, of a path under /api/v1, and all other requests.
pub data Endpoint : Type 0 where
  health : Endpoint
  api : Route → Endpoint
  unknown : Endpoint

-- The data of a success.
pub data Served (F : Type 0) : Type 0 where
  health_ok : Served F
  analytics : Answer F → Served F

abbrev serve_body : {F : Type 0} → Body (Answer F) → Body (Served F)
serve_body (success d) = success (Served.analytics d)
serve_body (failure code message) = failure code message

abbrev pub serve : {F : Type 0} → Response (Answer F) → Response (Served F)
serve resp = record { status = resp.status; body = serve_body resp.body }

-- `healthHandler`
unfoldable pub health_handler : {S F : Type 0} → Handler S (Served F)
health_handler r s = (send_success 200 Served.health_ok, s)

module _ {W F : Type 0} (p : Parsers) (svc : AnalyticsService W) (f : Float64 F)
    (verify : String → Result Claims) (cache : Settings W) (o : Outside (CacheWorld W))
    (not_found : Handler (CacheWorld W) (Served F)) where
  abbrev pub served_route : Route → Handler (CacheWorld W) (Served F)
  served_route route r s =
      let (resp, s') = mount_routes p svc f verify cache route r s in (serve resp, s')

  abbrev pub handler_of : Endpoint → Handler (CacheWorld W) (Served F)
  handler_of Endpoint.health = health_handler
  handler_of (Endpoint.api route) = served_route route
  handler_of Endpoint.unknown = not_found

  -- `NewRouter`: the id first, then the access log, then the routes.
  unfoldable pub new_router :
      Endpoint → String → String → Request → CacheWorld W → Reply (Served F) × CacheWorld W
  new_router endpoint method path = correlation o (access_log o method path (handler_of endpoint))
