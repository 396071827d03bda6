-- ===== src/Rbac/Changes.antt =====
-- lib/coreevents/rbac_handlers.go: a role whose permissions changed is dropped from the cache.
pub mod Laws
use quickbite_analytics_serv.Base.{String, List, [], ◌∷◌, str_eq, if◌then◌else◌}
use quickbite_analytics_serv.Errors.{wrap, Result, ok, err}
use quickbite_analytics_serv.Events.Payloads.{Envelope}
use quickbite_analytics_serv.Events.Handlers.{EventHandler}
use quickbite_analytics_serv.Rbac.Cache.{CacheWorld, invalidate}

pub record RbacPermissionsChangedPayload : Type 0 where
  pub role : String

module _ {W R : Type 0} (decode : R → Result RbacPermissionsChangedPayload) where
  abbrev on_payload :
      Result RbacPermissionsChangedPayload → CacheWorld W → Result (Unit {0}) × CacheWorld W
  on_payload (err e) c = (err (wrap "decode rbac.permissions_changed" e), c)
  on_payload (ok p) c = (ok tt, if str_eq p.role "" then c else invalidate p.role c)

  unfoldable pub permissions_changed : EventHandler (CacheWorld W) R
  permissions_changed env c = on_payload (decode env.payload) c

  -- `BuildRBACHandlers`
  unfoldable pub build_rbac_handlers : List (String × EventHandler (CacheWorld W) R)
  unfolding permissions_changed
  build_rbac_handlers = ("rbac.permissions_changed", permissions_changed) ∷ []
