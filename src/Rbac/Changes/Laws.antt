-- ===== src/Rbac/Changes/Laws.antt =====
-- The event of lib/coreevents/rbac_handlers.go and the cache of lib/rbac/cache.go.
use quickbite_analytics_serv.Base.{◌≡◌, false, none, str_eq}
use quickbite_analytics_serv.Errors.{Result, ok}
use quickbite_analytics_serv.Events.Payloads.{Envelope}
use quickbite_analytics_serv.Rbac.Cache.{Settings, CacheWorld, store, get_for_role, put}
use quickbite_analytics_serv.Rbac.Cache.Laws.{get_for_role-invalidate}
use quickbite_analytics_serv.Rbac.Changes.{RbacPermissionsChangedPayload, permissions_changed}

-- A look-up of a named role that finds the entries as the event of the role left them asks core,
-- whatever was cached before.
pub get_for_role-permissions_changed :
    {W R : Type 0} (s : Settings W) (decode : R → Result RbacPermissionsChangedPayload)
    (env : Envelope R) (p : RbacPermissionsChangedPayload) (c : CacheWorld W)
    → decode env.payload ≡ ok p
    → str_eq p.role "" ≡ false
    → get_for_role s p.role (permissions_changed decode env c).1
      ≡ store s p.role
          (s.now c.world)
          (s.get_role_permissions p.role (record c { entries = put p.role none c.entries })).0
          (s.get_role_permissions p.role (record c { entries = put p.role none c.entries })).1
unfolding permissions_changed
get_for_role-permissions_changed s decode env p c read given =
    rw read (rw given (get_for_role-invalidate s p.role c))
