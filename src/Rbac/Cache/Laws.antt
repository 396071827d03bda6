-- ===== src/Rbac/Cache/Laws.antt =====
-- Look-ups of lib/rbac/cache.go, and look-ups after an invalidation.
use quickbite_analytics_serv.Base.{String, ◌≡◌, true, false, none, some, str_eq, eq_refl}
use quickbite_analytics_serv.Base.Int.{ltb_ℤ}
use quickbite_analytics_serv.Errors.{ok}
use quickbite_analytics_serv.Rbac.Cache.{
  Entry, Settings, CacheWorld, live, store, lookup_or_fetch, get_for_role, invalidate, put,
}

module _ {W : Type 0} (s : Settings W) (role : String) (c : CacheWorld W) where
  -- An entry that has not expired is answered with no call to core, and nothing changes.
  pub get_for_role_hit :
      (e : Entry)
      → c.entries role ≡ some e
      → ltb_ℤ (s.now c.world) e.expires_at ≡ true
      → get_for_role s role c ≡ (ok e.perms, c)
  unfolding get_for_role
  get_for_role_hit e there live_now = rw (there) (rw live_now)

  -- With no live entry, core is asked once: a list is answered and stored until the time to live has
  -- passed, and an error is answered and leaves the entries as they were.
  pub get_for_role_miss :
      live s (c.entries role) (s.now c.world) ≡ none
      → get_for_role s role c
        ≡ store s role
            (s.now c.world)
            (s.get_role_permissions role c).0
            (s.get_role_permissions role c).1
  unfolding get_for_role
  get_for_role_miss stale = rw (stale, lookup_or_fetch)

  -- After an invalidation the role's permissions are read from core, whatever was cached.
  pub get_for_role-invalidate :
      get_for_role s role (invalidate role c)
      ≡ store s role
          (s.now c.world)
          (s.get_role_permissions role (record c { entries = put role none c.entries })).0
          (s.get_role_permissions role (record c { entries = put role none c.entries })).1
  unfolding get_for_role invalidate
  get_for_role-invalidate = rw (eq_refl role)

  pub invalidate_others :
      (other : String)
      → str_eq role other ≡ false
      → (invalidate role c).entries other ≡ c.entries other
  unfolding invalidate
  invalidate_others other ne = rw ne
