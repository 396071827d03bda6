-- ===== src/Boot/Router/Laws.antt =====
-- Who the whole HTTP stack of lib/boot/boot.go answers with analytics.
use quickbite_analytics_serv.Base.{String, ◌≡◌, ◌≢◌, refl, ap, true, false, ◌⊎◌, inl, inr, str_eq}
use quickbite_analytics_serv.Errors.{Result, ok, Body, success, failure}
use quickbite_analytics_serv.Repository.Interfaces.{AnalyticsService}
use quickbite_analytics_serv.Rbac.Cache.{Settings, CacheWorld}
use quickbite_analytics_serv.Rbac.Claims.{Claims}
use quickbite_analytics_serv.Rbac.Guards.{Request, Handler, extract_token}
use quickbite_analytics_serv.Service.Queries.{Float64}
use quickbite_analytics_serv.Controller.Responses.{Answer}
use quickbite_analytics_serv.Controller.Endpoints.{Parsers}
use quickbite_analytics_serv.Controller.Routes.{Route, mount_routes}
use quickbite_analytics_serv.Controller.Routes.Laws.{Entitled, mount_routes_sound}
use quickbite_analytics_serv.Boot.Correlation.{Outside, access_log}
use quickbite_analytics_serv.Boot.Correlation.Laws.{correlation-Identified}
use quickbite_analytics_serv.Boot.Router.{
  Endpoint, Served, serve_body, health_handler, handler_of, new_router,
}

serve_body-analytics :
    {F : Type 0} (b : Body (Answer F)) (d : Answer F)
    → serve_body b ≡ success (Served.analytics d)
    → b ≡ success d
serve_body-analytics (success x) d h = let same : x ≡ d = cc in ap success same
serve_body-analytics (failure code message) d h = cc

module _ {W F : Type 0} (p : Parsers) (svc : AnalyticsService W) (f : Float64 F)
    (verify : String → Result Claims) (cache : Settings W) (o : Outside (CacheWorld W))
    (not_found : Handler (CacheWorld W) (Served F)) where
  -- A route of the analytics was asked for, and the caller is entitled to it by a token that was
  -- verified, with the permissions as the cache answers them in `c`.
  abbrev pub Granted : Endpoint → Request → CacheWorld W → Type 0
  Granted endpoint r c =
      (route : Route) × (who : Claims) × (endpoint ≡ Endpoint.api route)
      × (verify (extract_token r) ≡ ok who)
      × Entitled p svc f verify cache route who c

  handler_of-Granted :
      (endpoint : Endpoint) (r : Request) (c : CacheWorld W) (d : Answer F)
      → ((r' : Request) (c' : CacheWorld W) (d' : Answer F)
          → (not_found r' c').0.body ≢ success (Served.analytics d'))
      → (handler_of p svc f verify cache o not_found endpoint r c).0.body
        ≡ success (Served.analytics d)
      → Granted endpoint r c
  unfolding health_handler
  handler_of-Granted Endpoint.health r c d unfound h = cc
  handler_of-Granted (Endpoint.api route) r c d unfound h =
      let (who, verified, entitled) =
        mount_routes_sound p svc f verify cache route r c d
          (serve_body-analytics (mount_routes p svc f verify cache route r c).0.body d h) in
      (route, who, refl, verified, entitled)
  handler_of-Granted Endpoint.unknown r c d unfound h = absurd (unfound r c d h)

  -- The whole HTTP stack, whatever the method, path and headers of a request, answers with analytics
  -- only on one of the eight routes, and only a caller whose token was verified and who is entitled
  -- to that route, if the router's answer to an unknown path is none with analytics. A permission
  -- that this takes is held by the answer of the cache in the state in which the request came, or,
  -- if it brought no correlation id, in the state once an id was made for it.
  pub new_router_sound :
      (endpoint : Endpoint) (method path : String) (r : Request) (c : CacheWorld W) (d : Answer F)
      → ((r' : Request) (c' : CacheWorld W) (d' : Answer F)
          → (not_found r' c').0.body ≢ success (Served.analytics d'))
      → (new_router p svc f verify cache o not_found endpoint method path r c).0.response.body
        ≡ success (Served.analytics d)
      → ((str_eq (r.header "x-correlation-id") "" ≡ false) × Granted endpoint r c)
        ⊎ ((str_eq (r.header "x-correlation-id") "" ≡ true) × Granted endpoint r (o.new_uuid c).1)
  unfolding new_router access_log
  new_router_sound endpoint method path r c d unfound h =
      elim (correlation-Identified o
        (access_log o method path (handler_of p svc f verify cache o not_found endpoint)) r c) [
          | inl (given, kept) ↦
              inl (given, handler_of-Granted endpoint r c d unfound (rw kept at h))
          | inr (missing, made) ↦
              inr (missing, handler_of-Granted endpoint r (o.new_uuid c).1 d unfound (rw made at h))
        ]
