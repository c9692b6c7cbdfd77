-- ===== src/Access/Authz.antt =====
-- `HasCapability` and `IsManagedRole` of internal/authz/authz.go.
use danshi_backend.Base.{any, true, false, String, str_eq, List, ◌∷◌, Bool, []}

pub data UserRole : Type 0 where
  role_user role_dict_reviewer role_moderator role_super_admin : UserRole
  other_role : String → UserRole

pub data Capability : Type 0 where
  use_app review_dictionary_suggestion manage_dictionary review_content manage_content : Capability
  view_user_evidence ban_user list_users manage_user_roles list_admins : Capability

-- The text of a capability, which is what the source compares.
abbrev pub capability_text : Capability → String
capability_text use_app = "use_app"
capability_text review_dictionary_suggestion = "review_dictionary_suggestion"
capability_text manage_dictionary = "manage_dictionary"
capability_text review_content = "review_content"
capability_text manage_content = "manage_content"
capability_text view_user_evidence = "view_user_evidence"
capability_text ban_user = "ban_user"
capability_text list_users = "list_users"
capability_text manage_user_roles = "manage_user_roles"
capability_text list_admins = "list_admins"

-- A role that the map does not know has no capability.
abbrev pub role_capabilities : UserRole → List Capability
role_capabilities role_user = use_app ∷ []
role_capabilities role_dict_reviewer =
    use_app ∷ review_dictionary_suggestion ∷ manage_dictionary ∷ []
role_capabilities role_moderator =
    use_app ∷ review_content ∷ manage_content ∷ view_user_evidence ∷ ban_user ∷ []
role_capabilities role_super_admin =
    use_app ∷ review_dictionary_suggestion ∷ manage_dictionary ∷ review_content ∷ manage_content
    ∷ view_user_evidence ∷ ban_user ∷ list_users ∷ manage_user_roles ∷ list_admins ∷ []
role_capabilities (other_role _) = []

unfoldable pub role_has_capability : UserRole → Capability → Bool
role_has_capability role capability =
    any (λ candidate. str_eq (capability_text candidate) (capability_text capability))
      (role_capabilities role)

unfoldable pub has_capability : List UserRole → Capability → Bool
unfolding role_has_capability
has_capability [] capability = role_has_capability role_user capability
has_capability (r ∷ rs) capability = any (λ role. role_has_capability role capability) (r ∷ rs)

unfoldable pub is_managed_role : UserRole → Bool
is_managed_role role_dict_reviewer = true
is_managed_role role_moderator = true
is_managed_role role_super_admin = true
is_managed_role _ = false
