-- ===== src/Access/Tests.antt =====
-- Some users of internal/authz/authz.go.
use danshi_backend.Base.{true, ◌≡◌, ◌∷◌, false, [], refl}
use danshi_backend.Access.Authz.{
  role_has_capability, has_capability, is_managed_role, role_dict_reviewer, role_moderator,
  manage_dictionary, manage_user_roles,
}
use danshi_backend.Access.Grants.{has_capability-grant, has_capability-super_admin}

has_capability-grant_example :
    has_capability (role_moderator ∷ role_dict_reviewer ∷ []) manage_dictionary ≡ true
unfolding has_capability role_has_capability is_managed_role
has_capability-grant_example =
    has_capability-grant [] (role_dict_reviewer ∷ []) role_moderator manage_dictionary refl refl

has_capability-super_admin_example : has_capability (role_moderator ∷ []) manage_user_roles ≡ false
has_capability-super_admin_example =
    has_capability-super_admin manage_user_roles (role_moderator ∷ []) refl
