-- ===== src/Clients/Core/Laws.antt =====
-- The permissions that lib/coreclient/client.go answers.
use quickbite_analytics_serv.Base.{
  ℕ, String, ◌≡◌, refl, Bool, true, false, not, inl, inr, Bool-cases, Option, none, List, [], ◌∷◌,
  all, str_eq, leb, ◌==◌, ◌⊎◌,
}
use quickbite_analytics_serv.Base.Int.{ℤ}
use quickbite_analytics_serv.Errors.{Result, ok, err}
use quickbite_analytics_serv.Clients.Http.{Transport, do_json}
use quickbite_analytics_serv.Clients.Core.{
  CoreConfig, RolePermissionsResponse, non_empty, permissions_of, read_permissions, permissions_url,
  get_role_permissions,
}

abbrev pub named : String → Bool
named p = not (str_eq p "")

non_empty-named : (perms : List String) → all named (non_empty perms) ≡ true
unfolding non_empty
non_empty-named [] = refl
non_empty-named (p ∷ perms) = elim (Bool-cases (str_eq p "")) [
  | inl empty ↦ rw empty (non_empty-named perms)
  | inr kept ↦ rw (kept, non_empty) (rw (kept, non_empty-named perms) refl)
]

read_permissions-named :
    (answer : Result (ℕ × Option RolePermissionsResponse)) (perms : List String)
    → read_permissions answer ≡ ok perms
    → all named perms ≡ true
unfolding read_permissions
read_permissions-named (err e) perms h = cc
read_permissions-named (ok (status, resp)) perms h =
    by_status (Bool-cases (status == 404)) (Bool-cases (leb 400 status))
  where
    from : (ps : List String) → all named ps ≡ true → ok ps ≡ ok perms → all named perms ≡ true
    from ps named_ps same = let e : ps ≡ perms = cc in rw⁻¹ e named_ps

    by_status :
        ((status == 404) ≡ true) ⊎ ((status == 404) ≡ false)
        → (leb 400 status ≡ true) ⊎ (leb 400 status ≡ false)
        → all named perms ≡ true
    by_status (inl a) _ = from [] refl (rw a at h)
    by_status (inr a) (inl b) = let failed : err _ ≡ ok perms = rw (a, b) at h in cc
    by_status (inr a) (inr b) =
        from (non_empty (permissions_of resp)) (non_empty-named (permissions_of resp))
          (rw (a, b) at h)

-- No permission that core's answer yields is the empty text.
pub get_role_permissions-named :
    {W Q B : Type 0} (t : Transport W Q B) (decode : B → Result RolePermissionsResponse)
    (max_retries : ℤ) (cfg : CoreConfig) (role : String) (w : W) (perms : List String)
    → (get_role_permissions t decode max_retries cfg role w).0 ≡ ok perms
    → all named perms ≡ true
unfolding get_role_permissions
get_role_permissions-named t decode max_retries cfg role w perms h =
    read_permissions-named
      (do_json t decode max_retries "GET" (permissions_url cfg role)
        (("x-api-key", cfg.internal_api_key) ∷ []) none w).0
      perms h
