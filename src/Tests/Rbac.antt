-- ===== src/Tests/Rbac.antt =====
-- Tokens, the permission cache and the guards at concrete callers.
use quickbite_analytics_serv.Base.{
  String, ◌≡◌, ◌↔◌, refl, true, Bool-cases, inl, inr, Option, none, some, [], ◌∷◌, str_eq,
  if◌then◌else◌,
}
use quickbite_analytics_serv.Base.Int.{ℤ, pos}
use quickbite_analytics_serv.Errors.{plain, Result, ok, err}
use quickbite_analytics_serv.Events.Payloads.{Envelope}
use quickbite_analytics_serv.Rbac.Claims.{
  number, text, one, MapClaims, SigningMethod, Token, claims_of, verify,
}
use quickbite_analytics_serv.Rbac.Claims.Laws.{ParseLaws, IsVerified, verify_iff}
use quickbite_analytics_serv.Rbac.Cache.{Entry, Settings, CacheWorld, store, get_for_role, put}
use quickbite_analytics_serv.Rbac.Cache.Laws.{get_for_role_hit, get_for_role_miss}
use quickbite_analytics_serv.Rbac.Changes.{RbacPermissionsChangedPayload}
use quickbite_analytics_serv.Tests.Memory.{World, empty}

abbrev parse_int : String → Option ℤ
parse_int s = none

abbrev payload : MapClaims
payload name =
    if str_eq name "userId"
    then some (one (number (pos 5)))
    else if str_eq name "role"
    then some (one (text "system_admin"))
    else none

-- all tokens are signed with HMAC and "secret"
abbrev checked : Result String → Result Token
checked (err e) = err e
checked (ok key) =
    if str_eq key "secret"
    then ok (record { valid = true; claims = some payload })
    else err (plain "signature is invalid")

abbrev parse : (SigningMethod → Result String) → String → Result Token
parse k token = checked (k SigningMethod.hmac)

checked-signed :
    (r : Result String) (t : Token)
    → checked r ≡ ok t
    → (key : String) × (r ≡ ok key) × (str_eq key "secret" ≡ true)
checked-signed (err e) t h = cc
checked-signed (ok key) t h = elim (Bool-cases (str_eq key "secret")) [
  | inl same ↦ (key, refl, same)
  | inr other ↦ let impossible : err (plain "signature is invalid") ≡ ok t = rw other at h in cc
]

abbrev parse_laws : ParseLaws parse_int parse
parse_laws = record {
  method_of = λ token. SigningMethod.hmac;
  signed = λ token key. str_eq key "secret";
  parse_keyed = λ k token t h. checked-signed (k SigningMethod.hmac) t h;
}

verify_iff_example :
    (verify parse_int parse "secret" "token" ≡ ok (claims_of parse_int payload))
    ↔ IsVerified parse_int parse parse_laws "secret" "token" (claims_of parse_int payload)
verify_iff_example =
    verify_iff parse_int parse parse_laws "secret" "token" (claims_of parse_int payload)

abbrev pub settings : Settings World
settings = record {
  get_role_permissions = λ role w. (ok ("core:restaurant:read" ∷ []), w);
  ttl = pos 300;
  now = λ w. pos 1000;
}

abbrev fresh : Entry
fresh = record { perms = "core:branch:read" ∷ []; expires_at = pos 1200 }

abbrev pub cold : CacheWorld World
cold = record { entries = λ role. none; world = empty }

abbrev warm : CacheWorld World
warm = record { entries = put "owner" (some fresh) (λ role. none); world = empty }

get_for_role_hit_example : get_for_role settings "owner" warm ≡ (ok ("core:branch:read" ∷ []), warm)
get_for_role_hit_example = get_for_role_hit settings "owner" warm fresh refl refl

get_for_role_miss_example :
    get_for_role settings "owner" cold
    ≡ store settings "owner" (pos 1000) (ok ("core:restaurant:read" ∷ [])) cold
get_for_role_miss_example = get_for_role_miss settings "owner" cold refl

abbrev pub changed : RbacPermissionsChangedPayload
changed = record { role = "owner" }

abbrev pub decode : Unit {0} → Result RbacPermissionsChangedPayload
decode raw = ok changed

abbrev pub envelope : Envelope (Unit {0})
envelope = record {
  event_id = "evt-9";
  event_type = "rbac.permissions_changed";
  occurred_at = "2026-05-21T10:00:00Z";
  aggregate_type = "role";
  aggregate_id = "owner";
  payload = tt;
}
