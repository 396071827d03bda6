-- ===== src/Rbac/Cache.antt =====
-- lib/rbac/cache.go: the read-through cache of permissions, one entry for each role. `GetForRole` asks
-- core with no lock held: other calls may change the entries until the answer is there.
pub mod Laws
pub mod Concurrent
use quickbite_analytics_serv.Base.{
  String, Bool, true, false, Option, none, some, List, [], ◌∷◌, str_eq, if◌then◌else◌,
}
use quickbite_analytics_serv.Base.Int.{ℤ, ◌+ℤ◌, ltb_ℤ}
use quickbite_analytics_serv.Errors.{Result, ok, err, map_result}
use quickbite_analytics_serv.Exec.{Exec}
use quickbite_analytics_serv.Mongo.Values.{Time}

-- A set of permissions, as a list: only membership is read.
abbrev pub contains : List String → String → Bool
contains [] p = false
contains (q ∷ perms) p = let rest = contains perms p in if str_eq q p then true else rest

pub record Entry : Type 0 where
  pub perms : List String
  pub expires_at : Time

-- The map `m` beside the world outside.
pub record CacheWorld (W : Type 0) : Type 0 where
  pub entries : String → Option Entry
  pub world : W

-- The fields of `Cache` that do not change: the source of permissions, the time to live, the clock. A
-- call to core leads to the cache as it is once the answer is there.
pub record Settings (W : Type 0) : Type 0 where
  pub get_role_permissions : String → Exec (CacheWorld W) (List String)
  pub ttl : ℤ
  pub now : W → Time

abbrev pub put : String → Option Entry → (String → Option Entry) → String → Option Entry
put role e entries r = if str_eq role r then e else entries r

unfoldable pub invalidate : {W : Type 0} → String → CacheWorld W → CacheWorld W
invalidate role c = record c { entries = put role none c.entries }

module _ {W : Type 0} (s : Settings W) where
  -- `e.expiresAt.After(now)`
  abbrev pub live : Option Entry → Time → Option Entry
  live none now = none
  live (some e) now = if ltb_ℤ now e.expires_at then some e else none

  -- what is done with the answer of core: an error is returned and not stored
  unfoldable pub store : String → Time → Result (List String) → Exec (CacheWorld W) (List String)
  store role now (err e) c = (err e, c)
  store role now (ok list) c = (
    ok list,
    record c {
      entries = put role (some (record { perms = list; expires_at = now +ℤ s.ttl })) c.entries;
    },
  )

  unfoldable pub lookup_or_fetch : String → Time → Option Entry → Exec (CacheWorld W) (List String)
  unfolding store
  lookup_or_fetch role now (some e) c = (ok e.perms, c)
  lookup_or_fetch role now none c =
      let (answer, c') = s.get_role_permissions role c in store role now answer c'

  unfoldable pub get_for_role : String → Exec (CacheWorld W) (List String)
  unfolding lookup_or_fetch
  get_for_role role c =
      let now = s.now c.world in lookup_or_fetch role now (live (c.entries role) now) c

  unfoldable pub has : String → String → Exec (CacheWorld W) Bool
  unfolding get_for_role
  has role permission c =
      let (perms, c') = get_for_role role c in (map_result (λ ps. contains ps permission) perms, c')
