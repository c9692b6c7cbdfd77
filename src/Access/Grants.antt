-- ===== src/Access/Grants.antt =====
-- What the bindings of a user allow (internal/authz/authz.go).
use danshi_backend.Base.{any, List, ◌++◌, true, false, ◌∷◌, Bool, [], ◌≡◌, refl, arith}
use danshi_backend.Access.Authz.{
  UserRole, Capability, role_has_capability, has_capability, is_managed_role, role_user,
  role_dict_reviewer, role_moderator, role_super_admin, other_role, use_app,
  review_dictionary_suggestion, manage_dictionary, review_content, manage_content,
  view_user_evidence, ban_user, list_users, manage_user_roles, list_admins,
}

managed-use_app :
    (r : UserRole) (c : Capability)
    → is_managed_role r ≡ true
    → role_has_capability role_user c ≡ true
    → role_has_capability r c ≡ true
unfolding is_managed_role role_has_capability
managed-use_app role_user c m h = cc m
managed-use_app role_dict_reviewer c m h = ground (arith, h)
managed-use_app role_moderator c m h = ground (arith, h)
managed-use_app role_super_admin c m h = ground (arith, h)
managed-use_app (other_role _) c m h = cc m

any-insert :
    {A : Type 0} (p : A → Bool) (xs ys : List A) (x : A)
    → any p (xs ++ ys) ≡ true
    → any p (xs ++ x ∷ ys) ≡ true
any-insert p [] ys x h = ground (arith, h)
any-insert p (z ∷ xs) ys x h = ground (arith, h, any-insert p xs ys x)

-- Binding one more managed role, at any place, takes no capability away, not even from a user who
-- had none bound and so had those of an ordinary user.
pub has_capability-grant :
    (rs qs : List UserRole) (r : UserRole) (c : Capability)
    → is_managed_role r ≡ true
    → has_capability (rs ++ qs) c ≡ true
    → has_capability (rs ++ r ∷ qs) c ≡ true
unfolding has_capability
has_capability-grant [] [] r c m h = rw (managed-use_app r c m h) refl
has_capability-grant [] (q ∷ qs) r c m h =
    any-insert (λ role. role_has_capability role c) [] (q ∷ qs) r h
has_capability-grant (z ∷ rs) qs r c m h =
    any-insert (λ role. role_has_capability role c) (z ∷ rs) qs r h

abbrev pub is_super_admin : UserRole → Bool
is_super_admin role_super_admin = true
is_super_admin _ = false

-- What only the management of users and roles needs.
abbrev pub is_reserved : Capability → Bool
is_reserved list_users = true
is_reserved manage_user_roles = true
is_reserved list_admins = true
is_reserved _ = false

reserved_role :
    (c : Capability) (r : UserRole)
    → is_reserved c ≡ true
    → role_has_capability r c ≡ is_super_admin r
unfolding role_has_capability
reserved_role list_users r h =
    elim r as (λ k. role_has_capability k list_users ≡ is_super_admin k) [
      | role_user ↦ refl
      | role_dict_reviewer ↦ refl
      | role_moderator ↦ refl
      | role_super_admin ↦ refl
      | other_role _ ↦ refl
    ]
reserved_role manage_user_roles r h =
    elim r as (λ k. role_has_capability k manage_user_roles ≡ is_super_admin k) [
      | role_user ↦ refl
      | role_dict_reviewer ↦ refl
      | role_moderator ↦ refl
      | role_super_admin ↦ refl
      | other_role _ ↦ refl
    ]
reserved_role list_admins r h =
    elim r as (λ k. role_has_capability k list_admins ≡ is_super_admin k) [
      | role_user ↦ refl
      | role_dict_reviewer ↦ refl
      | role_moderator ↦ refl
      | role_super_admin ↦ refl
      | other_role _ ↦ refl
    ]
reserved_role use_app r h = cc h
reserved_role review_dictionary_suggestion r h = cc h
reserved_role manage_dictionary r h = cc h
reserved_role review_content r h = cc h
reserved_role manage_content r h = cc h
reserved_role view_user_evidence r h = cc h
reserved_role ban_user r h = cc h

reserved_roles :
    (c : Capability) (rs : List UserRole)
    → is_reserved c ≡ true
    → any (λ role. role_has_capability role c) rs ≡ any is_super_admin rs
reserved_roles c [] h = refl
reserved_roles c (r ∷ rs) h = cc (reserved_role c r h, reserved_roles c rs h)

-- Users and roles are managed by super admins only: a user has one of the capabilities reserved for
-- that exactly if one of the bound roles is super admin.
pub has_capability-super_admin :
    (c : Capability) (rs : List UserRole)
    → is_reserved c ≡ true
    → has_capability rs c ≡ any is_super_admin rs
unfolding has_capability
has_capability-super_admin c [] h = reserved_role c role_user h
has_capability-super_admin c (r ∷ rs) h = reserved_roles c (r ∷ rs) h
