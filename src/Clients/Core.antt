-- ===== src/Clients/Core.antt =====
-- lib/coreclient: the permissions of a role, from core-service.
pub mod Laws
use Prim.Native.String.{◌++◌}
use quickbite_analytics_serv.Base.{
  ℕ, String, Option, none, some, List, [], ◌∷◌, str_eq, leb, ◌==◌, if◌then◌else◌,
}
use quickbite_analytics_serv.Base.Int.{ℤ}
use quickbite_analytics_serv.Errors.{plain, wrap, Result, ok, err}
use quickbite_analytics_serv.Exec.{Exec}
use quickbite_analytics_serv.Clients.Http.{Transport, do_json}

-- `coreclient.Config`
pub record CoreConfig : Type 0 where
  pub base_url : String
  pub internal_api_key : String

pub record RolePermissionsData : Type 0 where
  pub role : String
  pub permissions : List String

-- The part of `RolePermissionsResponse` that is read.
pub record RolePermissionsResponse : Type 0 where
  pub data_ : RolePermissionsData

unfoldable pub non_empty : List String → List String
non_empty [] = []
non_empty (p ∷ perms) = let rest = non_empty perms in if str_eq p "" then rest else p ∷ rest

-- The permissions of `resp`, which stays at its zero value when nothing was decoded.
unfoldable pub permissions_of : Option RolePermissionsResponse → List String
permissions_of none = []
permissions_of (some resp) = resp.data_.permissions

unfoldable pub read_permissions : Result (ℕ × Option RolePermissionsResponse) → Result (List String)
unfolding non_empty permissions_of
read_permissions (err e) = err (wrap "core get-role-permissions" e)
read_permissions (ok (status, resp)) =
    if status == 404
    then ok []
    else if leb 400 status
    then err (plain "core get-role-permissions: status=%d")
    else ok (non_empty (permissions_of resp))

unfoldable pub permissions_url : CoreConfig → String → String
permissions_url cfg role = cfg.base_url ++ ("/api/roles/" ++ (role ++ "/permissions"))

unfoldable pub get_role_permissions :
    {W Q B : Type 0}
    → Transport W Q B
    → (B → Result RolePermissionsResponse)
    → ℤ
    → CoreConfig
    → String
    → Exec W (List String)
unfolding read_permissions permissions_url
get_role_permissions t decode max_retries cfg role w =
    let (answer, w') =
      do_json t decode max_retries "GET" (permissions_url cfg role)
        (("x-api-key", cfg.internal_api_key) ∷ []) none w in
    (read_permissions answer, w')
