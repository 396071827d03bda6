-- ===== src/Rbac/Claims/Laws.antt =====
-- The tokens that `Verify` of lib/auth/jwt.go accepts.
use mathlib.Core.Path.{subst}
use quickbite_analytics_serv.Base.{
  String, ◌≡◌, ◌≢◌, ◌↔◌, sym, refl, ◌∙◌, Option, none, some, Bool, List, [], ◌∷◌, true, arith,
  eq_iff, ap, Bool-cases, inl, inr, str_eq,
}
use quickbite_analytics_serv.Base.Int.{ℤ, pos, eqb_ℤ, eqb_ℤ_iff}
use quickbite_analytics_serv.Errors.{plain, Result, ok, err, ◌>>=◌, >>=-eq-ok}
use quickbite_analytics_serv.Rbac.Claims.{
  Claims, ClaimValue, number, text, other, Claim, one, many, MapClaims, SigningMethod, Token,
  key_func, claim_as_int64, int_claim, read_ids, ids_claim, text_claim, or_zero, claims_of,
  check_claims, map_claims, from_token, verify,
}

check_claims-eq-ok :
    (parse_int : String → Option ℤ) (out c : Claims)
    → check_claims parse_int out ≡ ok c
    → (c ≡ out) × (c.user_id ≢ pos 0) × (c.role ≢ "")
unfolding check_claims
check_claims-eq-ok parse_int out c h = (
  ground arith,
  λ e.
      ground (arith, ap (λ (x : Claims). x.user_id) (same_claims h), eqb_ℤ_iff out.user_id (pos 0)),
  λ e. ground (arith, ap (λ (x : Claims). x.role) (same_claims h), eq_iff out.role ""),
)
  where
    same_claims : check_claims parse_int out ≡ ok c → c ≡ out
    same_claims k = ground arith

check_claims-ok :
    (parse_int : String → Option ℤ) (out : Claims)
    → out.user_id ≢ pos 0
    → out.role ≢ ""
    → check_claims parse_int out ≡ ok out
unfolding check_claims
check_claims-ok parse_int out user role = elim (Bool-cases (eqb_ℤ out.user_id (pos 0))) [
  | inl zero ↦ elim (user ((eqb_ℤ_iff out.user_id (pos 0)).0 zero)) [ ]
  | inr given ↦ elim (Bool-cases (str_eq out.role "")) [
    | inl empty ↦ elim (role ((eq_iff out.role "").0 empty)) [ ]
    | inr named ↦ rw (given, named) refl
  ]
]

module _ (parse_int : String → Option ℤ) where
  -- A number, or the text of one.
  abbrev pub number_in : Option Claim → Option ℤ
  number_in (some (one (number n))) = some n
  number_in (some (one (text s))) = parse_int s
  number_in _ = none

  abbrev pub text_in : Option Claim → Option String
  text_in (some (one (text s))) = some s
  text_in _ = none

  abbrev numbers : List ClaimValue → List ℤ
  numbers [] = []
  numbers (v ∷ vs) = elim (number_in (some (one v))) [ none ↦ numbers vs | some n ↦ n ∷ numbers vs ]

  -- The elements of a list that can be read.
  abbrev pub numbers_in : Option Claim → List ℤ
  numbers_in (some (many vs)) = numbers vs
  numbers_in _ = []

  abbrev pub or_else : {A : Type 0} → A → Option A → A
  or_else a none = a
  or_else a (some b) = b

  -- The claims are those of the payload under their names.
  pub record ReadFrom (mc : MapClaims) (c : Claims) : Type 0 where
    pub user : c.user_id ≡ or_else (pos 0) (number_in (mc "userId"))
    pub mail : c.email ≡ or_else "" (text_in (mc "email"))
    pub role_given : c.role ≡ or_else "" (text_in (mc "role"))
    pub restaurant : c.restaurant_id ≡ number_in (mc "restaurantId")
    pub restaurant_role_given : c.restaurant_role ≡ text_in (mc "restaurantRole")
    pub branches : c.branch_ids ≡ numbers_in (mc "branchIds")

  claim_as_int64-eq : (v : ClaimValue) → claim_as_int64 parse_int v ≡ number_in (some (one v))
  unfolding claim_as_int64
  claim_as_int64-eq (number n) = refl
  claim_as_int64-eq (text s) = refl
  claim_as_int64-eq other = refl

  int_claim-eq : (o : Option Claim) → int_claim parse_int o ≡ number_in o
  unfolding int_claim
  int_claim-eq none = refl
  int_claim-eq (some (one v)) = claim_as_int64-eq v
  int_claim-eq (some (many vs)) = refl

  text_claim-eq : (o : Option Claim) → text_claim parse_int o ≡ text_in o
  text_claim-eq none = refl
  text_claim-eq (some (one (number n))) = refl
  text_claim-eq (some (one (text s))) = refl
  text_claim-eq (some (one other)) = refl
  text_claim-eq (some (many vs)) = refl

  or_zero-eq : {A : Type 0} (a : A) (o : Option A) → or_zero parse_int a o ≡ or_else a o
  or_zero-eq a none = refl
  or_zero-eq a (some b) = refl

  read_ids-eq : (vs : List ClaimValue) → read_ids parse_int vs ≡ numbers vs
  unfolding read_ids
  read_ids-eq [] i = []
  read_ids-eq (v ∷ vs) i = elim (claim_as_int64-eq v i) [
    | none ↦ read_ids-eq vs i
    | some n ↦ n ∷ read_ids-eq vs i
  ]

  ids_claim-eq : (o : Option Claim) → ids_claim parse_int o ≡ numbers_in o
  unfolding ids_claim
  ids_claim-eq none = refl
  ids_claim-eq (some (one v)) = refl
  ids_claim-eq (some (many vs)) = read_ids-eq vs

  claims_of-ReadFrom : (mc : MapClaims) → ReadFrom mc (claims_of parse_int mc)
  unfolding claims_of
  claims_of-ReadFrom mc = record {
    user =
        or_zero-eq (pos 0) (int_claim parse_int (mc "userId"))
        ∙ ap (or_else (pos 0)) (int_claim-eq (mc "userId"));
    mail =
        or_zero-eq "" (text_claim parse_int (mc "email"))
        ∙ ap (or_else "") (text_claim-eq (mc "email"));
    role_given =
        or_zero-eq "" (text_claim parse_int (mc "role"))
        ∙ ap (or_else "") (text_claim-eq (mc "role"));
    restaurant = int_claim-eq (mc "restaurantId");
    restaurant_role_given = text_claim-eq (mc "restaurantRole");
    branches = ids_claim-eq (mc "branchIds");
  }

  ReadFrom-unique : (mc : MapClaims) (c c' : Claims) → ReadFrom mc c → ReadFrom mc c' → c ≡ c'
  ReadFrom-unique mc c c' r r' i = record {
    user_id = (r.user ∙ sym r'.user) i;
    email = (r.mail ∙ sym r'.mail) i;
    role = (r.role_given ∙ sym r'.role_given) i;
    restaurant_id = (r.restaurant ∙ sym r'.restaurant) i;
    restaurant_role = (r.restaurant_role_given ∙ sym r'.restaurant_role_given) i;
    branch_ids = (r.branches ∙ sym r'.branches) i;
  }

  module _ (parse : (SigningMethod → Result String) → String → Result Token) where
    -- What is relied on of `jwt.Parse`: it answers a token only if the key function answers a key for
    -- the token's method and the token is signed with that key.
    pub record ParseLaws : Type 0 where
      pub method_of : String → SigningMethod
      -- by a token and a key
      pub signed : String → String → Bool
      pub parse_keyed :
          (k : SigningMethod → Result String) (token : String) (t : Token)
          → parse k token ≡ ok t
          → (key : String) × (k (method_of token) ≡ ok key) × (signed token key ≡ true)

    -- The token is signed with HMAC and the secret, it is valid, and the claims are those of its
    -- payload, with a user id other than 0 and a role.
    abbrev pub IsVerified : ParseLaws → String → String → Claims → Type 0
    IsVerified laws access_secret token c =
        (laws.method_of token ≡ SigningMethod.hmac)
        × (laws.signed token access_secret ≡ true)
        × ((t : Token) × (mc : MapClaims) × (parse (key_func access_secret) token ≡ ok t)
            × (t.valid ≡ true)
            × (t.claims ≡ some mc)
            × ReadFrom mc c
            × (c.user_id ≢ pos 0)
            × (c.role ≢ ""))

    key_func-hmac :
        (access_secret key : String) (m : SigningMethod)
        → key_func access_secret m ≡ ok key
        → (m ≡ SigningMethod.hmac) × (access_secret ≡ key)
    unfolding key_func
    key_func-hmac access_secret key SigningMethod.hmac h = (refl, cc)
    key_func-hmac access_secret key SigningMethod.another h = cc

    map_claims-eq-ok :
        (o : Option MapClaims) (mc : MapClaims) → map_claims parse_int o ≡ ok mc → o ≡ some mc
    map_claims-eq-ok none mc h = cc
    map_claims-eq-ok (some x) mc h = cc

    from_token-ok :
        (t : Token) (c : Claims)
        → from_token parse_int t ≡ ok c
        → (mc : MapClaims) × (t.valid ≡ true)
          × (t.claims ≡ some mc)
          × (check_claims parse_int (claims_of parse_int mc) ≡ ok c)
    from_token-ok t c h = elim (Bool-cases t.valid) [
      | inl valid ↦
          let mapped : (map_claims parse_int t.claims >>= λ mc.
          check_claims parse_int (claims_of parse_int mc))
              ≡ ok c =
            rw valid at h in
          let (mc, checked, same) = >>=-eq-ok (map_claims parse_int t.claims) _ mapped in
          (mc, valid, map_claims-eq-ok t.claims mc same, checked)
      | inr invalid ↦ let impossible : err (plain "invalid token") ≡ ok c = rw invalid at h in cc
    ]

    -- Let `jwt.Parse` answer only a token that is signed by the key that its key function gives. Then
    -- `Verify` accepts claims exactly if the token is signed with HMAC and the secret, it parses and is
    -- valid, and they are the claims of its payload, each under its name, with a user id other than 0
    -- and a role.
    pub verify_iff :
        (laws : ParseLaws) (access_secret token : String) (c : Claims)
        → (verify parse_int parse access_secret token ≡ ok c)
          ↔ IsVerified laws access_secret token c
    unfolding verify
    verify_iff laws access_secret token c = (accepted, complete)
      where
        accepted :
            verify parse_int parse access_secret token ≡ ok c
            → IsVerified laws access_secret token c
        accepted h =
            let (t, from, parsed) = >>=-eq-ok (parse (key_func access_secret) token) _ h in
            let (mc, valid, there, checked) = from_token-ok t c from in
            let (same, user, role) =
              check_claims-eq-ok parse_int (claims_of parse_int mc) c checked in
            let (key, keyed, signed) = laws.parse_keyed _ token t parsed in
            let (method, secret) = key_func-hmac access_secret key (laws.method_of token) keyed in
            (
              method,
              rw (sym secret) at signed,
              (
                t,
                mc,
                parsed,
                valid,
                there,
                subst (λ x. ReadFrom mc x) (sym same) (claims_of-ReadFrom mc),
                user,
                role,
              ),
            )

        complete :
            IsVerified laws access_secret token c
            → verify parse_int parse access_secret token ≡ ok c
        complete (method, signed, (t, mc, parsed, valid, there, from, user, role)) =
            let same = ReadFrom-unique mc (claims_of parse_int mc) c (claims_of-ReadFrom mc) from in
            rw parsed (
              rw (valid, there)
                (ap (check_claims parse_int) same ∙ check_claims-ok parse_int c user role))
