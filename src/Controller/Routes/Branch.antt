-- ===== src/Controller/Routes/Branch.antt =====
-- The route of a branch in app/analytics/controller, from the token to the branch.
use mathlib.Core.Path.{subst}
use quickbite_analytics_serv.Base.{String, ◌≡◌, sym, ap, ◌∙◌, some}
use quickbite_analytics_serv.Base.Int.{ℤ}
use quickbite_analytics_serv.Errors.{Result, ok, success}
use quickbite_analytics_serv.Exec.{continue-eq-ok}
use quickbite_analytics_serv.Repository.Interfaces.{AnalyticsService}
use quickbite_analytics_serv.Rbac.Cache.{Settings, CacheWorld}
use quickbite_analytics_serv.Rbac.Claims.{Claims}
use quickbite_analytics_serv.Rbac.Guards.{Request, extract_token}
use quickbite_analytics_serv.Rbac.Guards.Laws.{require_auth-Guarded}
use quickbite_analytics_serv.Service.Access.{assert_branch_access}
use quickbite_analytics_serv.Service.Access.Laws.{BranchAccess, assert_branch_access_sound}
use quickbite_analytics_serv.Service.Queries.{Float64, query_branch_days}
use quickbite_analytics_serv.Controller.Responses.{Answer}
use quickbite_analytics_serv.Controller.Endpoints.{
  Parsers, parse_positive_id, check_range, get_branch_days,
}
use quickbite_analytics_serv.Controller.Routes.{Route, wrap, endpoint, gate, mount_routes}
use quickbite_analytics_serv.Controller.Routes.Laws.{passed, gate_sound}
use quickbite_analytics_serv.Controller.Routes.Tenant.{wrap_handler-success}

module _ {W F : Type 0} (p : Parsers) (s : AnalyticsService W) (f : Float64 F) where
  get_branch_days-asserted :
      (r : Request) (w : W) (d : Answer F)
      → (get_branch_days p s f r w).0 ≡ ok d
      → (id : ℤ) × (parse_positive_id p r "branchId" ≡ ok id)
        × ((assert_branch_access s.branch_repo r.claims id w).0 ≡ ok tt)
  unfolding get_branch_days query_branch_days
  get_branch_days-asserted r w d h =
      let (id, _, checked, parsed) = continue-eq-ok (parse_positive_id p r "branchId") _ w h in
      let (_, _, queried, _) = continue-eq-ok (check_range p r) _ w checked in
      let (_, _, _, found) = continue-eq-ok _ _ _ queried in
      let (_, _, _, allowed) =
        continue-eq-ok (assert_branch_access s.branch_repo r.claims id w).0 _ _ found in
      (id, parsed, allowed)

module _ {W F : Type 0} (p : Parsers) (s : AnalyticsService W) (f : Float64 F)
    (verify : String → Result Claims) (cache : Settings W) where
  -- The route of a branch answers with data only if the token was verified, the path's branch id was
  -- accepted, and the claims of the token may see the branch, in a world that the repository is asked
  -- in: as a system administrator, as the owner of its restaurant or of a branch with no row yet, or
  -- by the list of branches in the claims.
  pub branch_route_sound :
      (r : Request) (c : CacheWorld W) (d : Answer F)
      → (mount_routes p s f verify cache Route.branches_days r c).0.body ≡ success d
      → (who : Claims) × (verify (extract_token r) ≡ ok who)
        × ((id : ℤ) × (w : W) × (parse_positive_id p r "branchId" ≡ ok id)
            × BranchAccess s.branch_repo who id w)
  unfolding mount_routes parse_positive_id
  branch_route_sound r c d done =
      let next =
        gate p s f verify cache Route.branches_days
          (wrap (endpoint p s f verify cache Route.branches_days)) in
      let (r', c', (who, known, verified, same), reached) =
        passed _ next _ d (require_auth-Guarded verify next r c) done in
      let (_, (c'', answered)) =
        gate_sound p s f verify cache Route.branches_days who r' c' d
          (ap (λ (x : Request). x.claims) known) reached in
      let (id, parsed, allowed) =
        get_branch_days-asserted p s f r' c''.world d (wrap_handler-success _ d answered) in
      let (who', held, access) =
        assert_branch_access_sound s.branch_repo id c''.world r'.claims allowed in
      let e : some who' ≡ some who = sym held ∙ ap (λ (x : Request). x.claims) known in
      (
        who,
        verified,
        (
          id,
          c''.world,
          sym (ap (λ (x : Request). parse_positive_id p x "branchId") known) ∙ parsed,
          of_claims who' who e id c''.world access,
        ),
      )
    where
      of_claims :
          (who' who : Claims)
          → some who' ≡ some who
          → (id : ℤ) (w : W) → BranchAccess s.branch_repo who' id w
          → BranchAccess s.branch_repo who id w
      of_claims who' who e id w access =
          let same : who' ≡ who = cc in subst (λ x. BranchAccess s.branch_repo x id w) same access
