-- ===== src/Service/Access.antt =====
-- The tenant checks of app/analytics/service/analytics.service.go.
pub mod Laws
use quickbite_analytics_serv.Base.{
  String, Bool, true, false, ◌&&◌, Option, none, some, List, [], ◌∷◌, str_eq, if◌then◌else◌,
}
use quickbite_analytics_serv.Base.Int.{ℤ, pos, eqb_ℤ}
use quickbite_analytics_serv.Errors.{Err, app, Result, ok, err}
use quickbite_analytics_serv.Exec.{Exec, ◌>>=◌, pure, fail, lift}
use quickbite_analytics_serv.Types.{err_tenant_mismatch}
use quickbite_analytics_serv.Rbac.Claims.{Claims}
use quickbite_analytics_serv.Repository.Interfaces.{BranchDayRepository}

abbrev pub same_id : Option ℤ → ℤ → Bool
same_id none id = false
same_id (some n) id = eqb_ℤ n id

-- `canAccessRestaurant`; the claims are those on the context.
unfoldable pub can_access_restaurant : Option Claims → ℤ → Bool
can_access_restaurant none restaurant_id = false
can_access_restaurant (some c) restaurant_id =
    if str_eq c.role "system_admin" then true else same_id c.restaurant_id restaurant_id

-- `slices.Contains`
unfoldable pub contains_id : List ℤ → ℤ → Bool
contains_id [] id = false
contains_id (n ∷ ids) id = let rest = contains_id ids id in if eqb_ℤ n id then true else rest

abbrev pub is_owner : Option String → Bool
is_owner none = false
is_owner (some r) = str_eq r "owner"

abbrev pub refuse : Err
refuse = app err_tenant_mismatch

-- An owner may see a branch of the own restaurant, and a branch with no row yet.
unfoldable pub owner_decision : ℤ → ℤ → Result (Unit {0})
owner_decision owner_restaurant_id branch_restaurant_id =
    if eqb_ℤ branch_restaurant_id (pos 0)
    then ok tt
    else if eqb_ℤ branch_restaurant_id owner_restaurant_id
    then ok tt
    else err refuse

module _ {W : Type 0} (branch_repo : BranchDayRepository W) where
  unfoldable pub owner_access : Option ℤ → ℤ → Exec W (Unit {0})
  unfolding owner_decision
  owner_access none branch_id = fail refuse
  owner_access (some owner_restaurant_id) branch_id = do
    branch_restaurant_id ← branch_repo.find_restaurant_of_branch branch_id
    lift (owner_decision owner_restaurant_id branch_restaurant_id)

  -- `assertBranchAccess`
  unfoldable pub assert_branch_access : Option Claims → ℤ → Exec W (Unit {0})
  unfolding owner_access contains_id
  assert_branch_access none branch_id = fail refuse
  assert_branch_access (some c) branch_id =
      if str_eq c.role "system_admin"
      then pure tt
      else if is_owner c.restaurant_role
      then owner_access c.restaurant_id branch_id
      else if contains_id c.branch_ids branch_id
      then pure tt
      else fail refuse
