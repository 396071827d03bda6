-- ===== src/Rbac/Claims.antt =====
-- lib/appcontext/context.go and lib/auth/jwt.go: the claims of a token. The claims on a request's
-- context are an `Option`: `ClaimsFrom` answers `ok` exactly when they are there.
pub mod Laws
use quickbite_analytics_serv.Base.{
  String, Bool, true, false, not, ◌||◌, Option, none, some, List, [], ◌∷◌, str_eq, if◌then◌else◌,
}
use quickbite_analytics_serv.Base.Int.{ℤ, pos, eqb_ℤ}
use quickbite_analytics_serv.Errors.{plain, Result, ok, err, ◌>>=◌}

pub record Claims : Type 0 where
  pub user_id : ℤ
  pub email : String
  pub role : String
  pub restaurant_id : Option ℤ
  pub restaurant_role : Option String
  pub branch_ids : List ℤ

-- A claim as `encoding/json` decodes it. Of a number, a float64, only `int64(x)` is read.
pub data ClaimValue : Type 0 where
  number : ℤ → ClaimValue
  text : String → ClaimValue
  other : ClaimValue

pub data Claim : Type 0 where
  one : ClaimValue → Claim
  many : List ClaimValue → Claim

-- `jwt.MapClaims`
abbrev pub MapClaims : Type 0
MapClaims = String → Option Claim

-- What the key function reads of a token: whether its method is a `SigningMethodHMAC`.
pub data SigningMethod : Type 0 where
  hmac : SigningMethod
  another : SigningMethod

-- `jwt.Token`, as far as it is read; `claims` are there if they are `MapClaims`.
pub record Token : Type 0 where
  pub valid : Bool
  pub claims : Option MapClaims

-- the key function of `Verify`
unfoldable pub key_func : String → SigningMethod → Result String
key_func access_secret SigningMethod.hmac = ok access_secret
key_func access_secret SigningMethod.another = err (plain "unexpected signing method: %v")

-- `parse_int` is `strconv.ParseInt(x, 10, 64)`.
module _ (parse_int : String → Option ℤ) where
  unfoldable pub claim_as_int64 : ClaimValue → Option ℤ
  claim_as_int64 (number n) = some n
  claim_as_int64 (text s) = parse_int s
  claim_as_int64 other = none

  unfoldable pub int_claim : Option Claim → Option ℤ
  unfolding claim_as_int64
  int_claim (some (one v)) = claim_as_int64 v
  int_claim _ = none

  -- the branch ids that can be read; the others are passed over
  unfoldable pub read_ids : List ClaimValue → List ℤ
  unfolding claim_as_int64
  read_ids [] = []
  read_ids (v ∷ vs) =
      let rest = read_ids vs in elim (claim_as_int64 v) [ none ↦ rest | some n ↦ n ∷ rest ]

  unfoldable pub ids_claim : Option Claim → List ℤ
  unfolding read_ids
  ids_claim (some (many vs)) = read_ids vs
  ids_claim _ = []

  abbrev pub text_claim : Option Claim → Option String
  text_claim (some (one (text s))) = some s
  text_claim _ = none

  abbrev pub or_zero : {A : Type 0} → A → Option A → A
  or_zero zero none = zero
  or_zero zero (some a) = a

  unfoldable pub claims_of : MapClaims → Claims
  unfolding int_claim ids_claim
  claims_of mc = record {
    user_id = or_zero (pos 0) (int_claim (mc "userId"));
    email = or_zero "" (text_claim (mc "email"));
    role = or_zero "" (text_claim (mc "role"));
    restaurant_id = int_claim (mc "restaurantId");
    restaurant_role = text_claim (mc "restaurantRole");
    branch_ids = ids_claim (mc "branchIds");
  }

  -- the last test of `Verify`
  unfoldable pub check_claims : Claims → Result Claims
  check_claims out =
      if eqb_ℤ out.user_id (pos 0) || str_eq out.role ""
      then err (plain "token missing required claims")
      else ok out

  -- `parsed.Claims.(jwt.MapClaims)`
  abbrev pub map_claims : Option MapClaims → Result MapClaims
  map_claims none = err (plain "unexpected claims type")
  map_claims (some mc) = ok mc

  abbrev pub from_token : Token → Result Claims
  from_token parsed =
      if not parsed.valid
      then err (plain "invalid token")
      else (do mc ← map_claims parsed.claims; check_claims (claims_of mc))

  -- `Verify`; `parse` is `jwt.Parse`.
  unfoldable pub verify :
      ((SigningMethod → Result String) → String → Result Token) → String → String → Result Claims
  unfolding claims_of check_claims key_func
  verify parse access_secret token = do
    parsed ← parse (key_func access_secret) token
    from_token parsed
