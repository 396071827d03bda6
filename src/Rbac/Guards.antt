-- ===== src/Rbac/Guards.antt =====
-- lib/auth/middleware.go, lib/auth/apikey.go and lib/rbac/middleware.go: what stands in front of a
-- handler. A middleware takes the next handler, and a handler a request. `S` is the state behind
-- the server. A message made by `Sprintf` is given by its format.
pub mod Laws
use Prim.Native.Char.{code}
use quickbite_analytics_serv.Base.{
  ℕ, String, Bool, true, false, ◌||◌, not, Option, none, some, List, [], ◌∷◌, str_eq, ◌==◌,
  if◌then◌else◌,
}
use quickbite_analytics_serv.Errors.{Err, Result, ok, err, Response, send_error}
use quickbite_analytics_serv.Exec.{Exec}
use quickbite_analytics_serv.Rbac.Claims.{Claims}

-- What the handlers read of a request, and the claims on its context.
pub record Request : Type 0 where
  pub cookie_access_token : Option String
  pub header : String → String
  pub url_param : String → String
  pub query : String → String
  pub claims : Option Claims

abbrev pub Handler : Type 0 → Type 0 → Type 0
Handler S D = Request → S → Response D × S

abbrev pub role_system_admin : String
role_system_admin = "system_admin"

abbrev pub role_restaurant_user : String
role_restaurant_user = "restaurant_user"

-- `strings.HasPrefix` with `strings.TrimPrefix`
unfoldable pub strip_prefix : String → String → Option String
strip_prefix String.[] s = some s
strip_prefix (String.◌∷◌ c p) String.[] = none
strip_prefix (String.◌∷◌ c p) (String.◌∷◌ d s) =
    let rest = strip_prefix p s in if code c == code d then rest else none

abbrev or_empty : Option String → String
or_empty none = ""
or_empty (some s) = s

abbrev nonempty_cookie : Option String → Option String
nonempty_cookie none = none
nonempty_cookie (some v) = if str_eq v "" then none else some v

-- `extractToken`: the cookie wins over the header.
unfoldable pub extract_token : Request → String
unfolding strip_prefix
extract_token r = elim (nonempty_cookie r.cookie_access_token) [
  | some v ↦ v
  | none ↦ or_empty (strip_prefix "Bearer " (r.header "Authorization"))
]

abbrev write_unauth : {D : Type 0} → Response D
write_unauth = send_error 401 "UNAUTHENTICATED" "unauthenticated"

abbrev no_restaurant_role : String
no_restaurant_role =
    "restaurant_user token is missing the restaurantRole claim — re-login from core-service so the JWT is bound to your restaurant role"

abbrev forbidden : {D : Type 0} → String → Response D
forbidden message = send_error 403 "FORBIDDEN" message

-- `slices.Contains`
unfoldable pub one_of : List String → String → Bool
one_of [] role = false
one_of (r ∷ roles) role = let rest = one_of roles role in if str_eq r role then true else rest

module _ {S D : Type 0} where
  abbrev pub with_verified : Handler S D → Request → Result Claims → S → Response D × S
  with_verified next r (err e) s = (write_unauth, s)
  with_verified next r (ok c) s = next (record r { claims = some c }) s

  -- `auth.Require`
  unfoldable pub require_auth : (String → Result Claims) → Handler S D → Handler S D
  unfolding extract_token
  require_auth verify next r s =
      if str_eq (extract_token r) ""
      then (write_unauth, s)
      else with_verified next r (verify (extract_token r)) s

  -- `auth.RequireRole`
  abbrev pub role_checked : List String → Handler S D → Request → Option Claims → S → Response D × S
  role_checked roles next r none s =
      (send_error 403 "FORBIDDEN_ROLE" "missing authenticated claims on request", s)
  role_checked roles next r (some c) s =
      if one_of roles c.role
      then next r s
      else (send_error 403 "FORBIDDEN_ROLE" "role %q is not permitted on this route", s)

  unfoldable pub require_role : List String → Handler S D → Handler S D
  require_role roles next r s = role_checked roles next r r.claims s

  -- `auth.RequireInternalAPIKey`
  unfoldable pub require_internal_api_key : String → Handler S D → Handler S D
  require_internal_api_key expected next r s =
      if not (str_eq (r.header "x-api-key") expected) || str_eq expected ""
      then (send_error 401 "UNAUTHENTICATED" "invalid api key", s)
      else next r s

  -- after the lookup of the permission in the cache
  abbrev pub on_lookup : Handler S D → Request → Result Bool → S → Response D × S
  on_lookup next r (err e) s = (
    send_error 502 "RBAC_LOOKUP_FAILED"
        "could not verify permissions for restaurantRole %q against core-service: %v",
    s,
  )
  on_lookup next r (ok false) s = (
    forbidden
        "restaurantRole %q is missing required permission %q — grant it in core-service or call with a role that has it",
    s,
  )
  on_lookup next r (ok true) s = next r s

  abbrev pub on_restaurant_role :
      (String → String → Exec S Bool)
      → String
      → Handler S D
      → Request
      → Option String
      → S
      → Response D × S
  on_restaurant_role has permission next r none s = (forbidden no_restaurant_role, s)
  on_restaurant_role has permission next r (some role) s =
      if str_eq role ""
      then (forbidden no_restaurant_role, s)
      else (let (answer, s') = has role permission s in on_lookup next r answer s')

  abbrev pub on_claims :
      (String → String → Exec S Bool)
      → String
      → Handler S D
      → Request
      → Option Claims
      → S
      → Response D × S
  on_claims has permission next r none s = (forbidden "missing authenticated claims on request", s)
  on_claims has permission next r (some c) s =
      if str_eq c.role ""
      then (forbidden "token has no role claim", s)
      else if str_eq c.role role_system_admin
      then next r s
      else if not (str_eq c.role role_restaurant_user)
      then (
        forbidden
            "role %q has no analytics surface — log in as a restaurant member or system_admin",
        s,
      )
      else on_restaurant_role has permission next r c.restaurant_role s

  -- `rbac.Require`; `has` is `Cache.Has`.
  unfoldable pub require_permission :
      (String → String → Exec S Bool) → String → Handler S D → Handler S D
  require_permission has permission next r s = on_claims has permission next r r.claims s
