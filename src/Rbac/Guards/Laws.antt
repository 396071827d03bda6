-- ===== src/Rbac/Guards/Laws.antt =====
-- Requests that pass the guards of lib/auth/middleware.go and lib/rbac/middleware.go.
use quickbite_analytics_serv.Base.{
  String, ◌≡◌, ◌≢◌, refl, Bool, true, false, ◌⊎◌, inl, inr, Option, none, some, List, str_eq,
  eq_iff, arith, Bool-cases, ℕ, ◌≤◌,
}
use quickbite_analytics_serv.Errors.{Result, ok, err, Response, success, send_error}
use quickbite_analytics_serv.Exec.{Exec}
use quickbite_analytics_serv.Rbac.Claims.{Claims}
use quickbite_analytics_serv.Rbac.Guards.{
  Request, Handler, role_system_admin, role_restaurant_user, extract_token, require_auth,
  require_role, require_permission, with_verified, role_checked, one_of, on_claims,
  on_restaurant_role, on_lookup,
}

-- An error answer: its status is one of the client's or server's errors, and it holds no data.
abbrev pub Refused : {D : Type 0} → Response D → Type 0
Refused {D} answer = (400 ≤ answer.status) × ((d : D) → answer.body ≢ success d)

send_error-Refused :
    {D : Type 0} (status : ℕ) (code message : String)
    → 400 ≤ status
    → Refused (send_error {D = D} status code message)
send_error-Refused status code message h = (h, λ d same. cc)

module _ {S D : Type 0} where
  -- A middleware answers with a client or server error and does not call the next handler, or it is
  -- the next handler at some request and state of which `P` holds.
  abbrev pub Guarded : (Request → S → Type 0) → Handler S D → Response D × S → Type 0
  Guarded P next answer = Refused answer.0 ⊎ ((r : Request) × (s : S) × P r s × (answer ≡ next r s))

  -- Past `auth.Require` the context holds the claims of a token that was verified.
  pub require_auth-Guarded :
      (verify : String → Result Claims) (next : Handler S D) (r : Request) (s : S)
      → Guarded
          (λ r' s'.
            (c : Claims) × (r' ≡ record r { claims = some c })
            × (verify (extract_token r) ≡ ok c)
            × (s' ≡ s))
          next
          (require_auth verify next r s)
  unfolding require_auth
  require_auth-Guarded verify next r s = elim (Bool-cases (str_eq (extract_token r) "")) [
    | inl absent ↦ rw absent (inl (send_error-Refused _ _ _ (omega arith)))
    | inr present ↦ rw present (checked (verify (extract_token r)) refl)
  ]
    where
      checked :
          (v : Result Claims)
          → verify (extract_token r) ≡ v
          → Guarded
              (λ r' s'.
                (c : Claims) × (r' ≡ record r { claims = some c })
                × (verify (extract_token r) ≡ ok c)
                × (s' ≡ s))
              next
              (with_verified next r v s)
      checked (err e) h = inl (send_error-Refused _ _ _ (omega arith))
      checked (ok c) h = inr (record r { claims = some c }, s, (c, refl, h, refl), refl)

  -- Past `auth.RequireRole` the claims have one of the roles.
  pub require_role-Guarded :
      (roles : List String) (next : Handler S D) (r : Request) (s : S)
      → Guarded
          (λ r' s'.
            (r' ≡ r)
            × ((c : Claims) × (r.claims ≡ some c) × (one_of roles c.role ≡ true) × (s' ≡ s)))
          next
          (require_role roles next r s)
  unfolding require_role
  require_role-Guarded roles next r s = by_claims r.claims refl
    where
      by_claims :
          (claims : Option Claims)
          → r.claims ≡ claims
          → Guarded
              (λ r' s'.
                (r' ≡ r)
                × ((c : Claims) × (r.claims ≡ some c) × (one_of roles c.role ≡ true) × (s' ≡ s)))
              next
              (role_checked roles next r claims s)
      by_claims none h = inl (send_error-Refused _ _ _ (omega arith))
      by_claims (some c) h = elim (Bool-cases (one_of roles c.role)) [
        | inl held ↦ rw held (inr (r, s, (refl, (c, h, held, refl)), refl))
        | inr lacking ↦ rw lacking (inl (send_error-Refused _ _ _ (omega arith)))
      ]

  -- Past `rbac.Require` the caller is a system administrator, or a restaurant user whose restaurant
  -- role was found to have the permission.
  pub require_permission-Guarded :
      (has : String → String → Exec S Bool) (permission : String) (next : Handler S D) (r : Request)
      (s : S)
      → Guarded
          (λ r' s'.
            (r' ≡ r)
            × ((c : Claims) × (r.claims ≡ some c)
                × (((c.role ≡ role_system_admin) × (s' ≡ s))
                    ⊎ ((c.role ≡ role_restaurant_user)
                        × ((role : String) × (c.restaurant_role ≡ some role)
                            × (has role permission s ≡ (ok true, s')))))))
          next
          (require_permission has permission next r s)
  unfolding require_permission
  require_permission-Guarded has permission next r s = by_claims r.claims refl
    where
      Past : Claims → S → Type 0
      Past c s' =
          ((c.role ≡ role_system_admin) × (s' ≡ s))
          ⊎ ((c.role ≡ role_restaurant_user)
              × ((role : String) × (c.restaurant_role ≡ some role)
                  × (has role permission s ≡ (ok true, s'))))

      Reached : Response D × S → Type 0
      Reached = Guarded (λ r' s'. (r' ≡ r) × ((c : Claims) × (r.claims ≡ some c) × Past c s')) next

      looked_up :
          (c : Claims) (role : String)
          → r.claims ≡ some c
          → c.role ≡ role_restaurant_user
          → c.restaurant_role ≡ some role
          → (answer : Result Bool) (s' : S) → has role permission s ≡ (answer, s')
          → Reached (on_lookup next r answer s')
      looked_up c role h u v (err e) s' g = inl (send_error-Refused _ _ _ (omega arith))
      looked_up c role h u v (ok false) s' g = inl (send_error-Refused _ _ _ (omega arith))
      looked_up c role h u v (ok true) s' g =
          inr (r, s', (refl, (c, h, inr (u, (role, v, g)))), refl)

      by_role :
          (c : Claims) (role : Option String)
          → r.claims ≡ some c
          → c.role ≡ role_restaurant_user
          → c.restaurant_role ≡ role
          → Reached (on_restaurant_role has permission next r role s)
      by_role c none h u v = inl (send_error-Refused _ _ _ (omega arith))
      by_role c (some role) h u v = elim (Bool-cases (str_eq role "")) [
        | inl empty ↦ rw empty (inl (send_error-Refused _ _ _ (omega arith)))
        | inr named ↦
            rw named
              (looked_up c role h u v (has role permission s).0 (has role permission s).1 refl)
      ]

      by_claims :
          (claims : Option Claims)
          → r.claims ≡ claims
          → Reached (on_claims has permission next r claims s)
      by_claims none h = inl (send_error-Refused _ _ _ (omega arith))
      by_claims (some c) h =
          by_tests (Bool-cases (str_eq c.role "")) (Bool-cases (str_eq c.role role_system_admin))
            (Bool-cases (str_eq c.role role_restaurant_user))
        where
          Test : Bool → Type 0
          Test b = (b ≡ true) ⊎ (b ≡ false)

          by_tests :
              Test (str_eq c.role "")
              → Test (str_eq c.role role_system_admin)
              → Test (str_eq c.role role_restaurant_user)
              → Reached (on_claims has permission next r (some c) s)
          by_tests (inl a) _ _ = rw a (inl (send_error-Refused _ _ _ (omega arith)))
          by_tests (inr a) (inl b) _ =
              rw (a, b)
                (inr
                  (r, s, (refl, (c, h, inl ((eq_iff c.role role_system_admin).0 b, refl))), refl))
          by_tests (inr a) (inr b) (inr d) =
              rw (a, b, d) (inl (send_error-Refused _ _ _ (omega arith)))
          by_tests (inr a) (inr b) (inl d) =
              rw (a, b, d)
                (by_role c c.restaurant_role h ((eq_iff c.role role_restaurant_user).0 d) refl)
