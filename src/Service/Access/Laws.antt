-- ===== src/Service/Access/Laws.antt =====
-- The callers that the tenant checks of app/analytics/service/analytics.service.go let pass.
use quickbite_analytics_serv.Base.{
  ◌≡◌, refl, true, false, ◌⊎◌, inl, inr, Option, none, some, str_eq, eq_iff, arith, ◌↔◌,
  if◌then◌else◌, ap, Bool-cases,
}
use quickbite_analytics_serv.Base.Int.{ℤ, pos, eqb_ℤ_iff}
use quickbite_analytics_serv.Errors.{Result, ok, err}
use quickbite_analytics_serv.Exec.{continue, lift}
use quickbite_analytics_serv.Rbac.Claims.{Claims}
use quickbite_analytics_serv.Repository.Interfaces.{BranchDayRepository}
use quickbite_analytics_serv.Service.Access.{
  can_access_restaurant, contains_id, owner_decision, owner_access, assert_branch_access, is_owner,
  same_id,
}

same_id_iff : (o : Option ℤ) (id : ℤ) → (same_id o id ≡ true) ↔ (o ≡ some id)
same_id_iff none id = (λ h. cc, λ h. cc)
same_id_iff (some n) id = (λ h. ap some ((eqb_ℤ_iff n id).0 h), λ h. (eqb_ℤ_iff n id).1 (cc))

-- A restaurant's analytics are open exactly to a system administrator and to a caller whose claims
-- name that restaurant; a request without claims sees none.
pub can_access_restaurant_iff :
    (claims : Option Claims) (id : ℤ)
    → (can_access_restaurant claims id ≡ true) ↔ (
        (c : Claims) × (claims ≡ some c)
        × ((c.role ≡ "system_admin") ⊎ (c.restaurant_id ≡ some id)))
unfolding can_access_restaurant
can_access_restaurant_iff none id = (λ h. cc, λ (c, h, _). cc)
can_access_restaurant_iff (some c) id = (
  λ h. elim (Bool-cases (str_eq c.role "system_admin")) [
    | inl yes_admin ↦ (c, refl, inl ((eq_iff c.role "system_admin").0 yes_admin))
    | inr not_admin ↦ (c, refl, inr ((same_id_iff c.restaurant_id id).0 (rw not_admin at h)))
  ],
  λ (d, same, why). let e : c ≡ d = cc in rw e (allowed d why),
)
  where
    allowed :
        (d : Claims)
        → ((d.role ≡ "system_admin") ⊎ (d.restaurant_id ≡ some id))
        → (if str_eq d.role "system_admin" then true else same_id d.restaurant_id id) ≡ true
    allowed d (inl admin) = rw ((eq_iff d.role "system_admin").1 admin)
    allowed d (inr tenant) = ground (arith, (same_id_iff d.restaurant_id id).1 tenant)

-- The three ways to a branch: as an administrator, as the owner of its restaurant (or of a branch
-- with no row yet), or by the list of branches in the claims.
pub data BranchAccess {W : Type 0} (repo : BranchDayRepository W) (c : Claims) (id : ℤ) (w : W)
    : Type 0 where
  admin : c.role ≡ "system_admin" → BranchAccess repo c id w
  owner :
      (mine found : ℤ)
      → is_owner c.restaurant_role ≡ true
      → c.restaurant_id ≡ some mine
      → (repo.find_restaurant_of_branch id w).0 ≡ ok found
      → (found ≡ pos 0) ⊎ (found ≡ mine)
      → BranchAccess repo c id w
  listed :
      is_owner c.restaurant_role ≡ false
      → contains_id c.branch_ids id ≡ true
      → BranchAccess repo c id w

owner_decision-ok :
    (mine found : ℤ) → owner_decision mine found ≡ ok tt → (found ≡ pos 0) ⊎ (found ≡ mine)
unfolding owner_decision
owner_decision-ok mine found h = ground arith

module _ {W : Type 0} (repo : BranchDayRepository W) (id : ℤ) (w : W) where
  owner_access-ok :
      (r : Option ℤ)
      → (owner_access repo r id w).0 ≡ ok tt
      → (mine : ℤ) × (found : ℤ) × (r ≡ some mine)
        × ((repo.find_restaurant_of_branch id w).0 ≡ ok found)
        × ((found ≡ pos 0) ⊎ (found ≡ mine))
  unfolding owner_access
  owner_access-ok none h = cc
  owner_access-ok (some mine) h = found_of (repo.find_restaurant_of_branch id w).0 refl h
    where
      found_of :
          (r : Result ℤ)
          → (repo.find_restaurant_of_branch id w).0 ≡ r
          → (continue r
              (λ b. lift (owner_decision mine b))
              (repo.find_restaurant_of_branch id w).1).0
            ≡ ok tt
          → (m : ℤ) × (found : ℤ) × (some mine ≡ some m)
            × ((repo.find_restaurant_of_branch id w).0 ≡ ok found)
            × ((found ≡ pos 0) ⊎ (found ≡ m))
      found_of (ok b) e k = (mine, b, refl, e, owner_decision-ok mine b k)
      found_of (err x) e k = cc

  -- The branch guard lets a request through only by one of the three ways of `BranchAccess`; a
  -- request without claims is refused.
  pub assert_branch_access_sound :
      (claims : Option Claims)
      → (assert_branch_access repo claims id w).0 ≡ ok tt
      → (c : Claims) × (claims ≡ some c) × BranchAccess repo c id w
  unfolding assert_branch_access
  assert_branch_access_sound none h = cc
  assert_branch_access_sound (some c) h = (c, refl, way)
    where
      way : BranchAccess repo c id w
      way = elim (Bool-cases (str_eq c.role "system_admin")) [
        | inl is_admin ↦ admin ((eq_iff c.role "system_admin").0 is_admin)
        | inr not_admin ↦ elim (Bool-cases (is_owner c.restaurant_role)) [
          | inl owns ↦
              let (mine, found, r, e, ok_or) =
                owner_access-ok c.restaurant_id (rw (not_admin, owns) at h) in
              owner mine found owns r e ok_or
          | inr not_owner ↦ listed not_owner (ground arith)
        ]
      ]
