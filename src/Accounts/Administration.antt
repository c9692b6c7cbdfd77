-- ===== src/Accounts/Administration.antt =====
-- Administration of users: internal/service/admin_users.go and the statements of
-- internal/repository/admin_write.go.
use Prim.Native.String.{len}
use danshi_backend.Base.{
  ltb, leb, ◌==◌, if◌then◌else◌, is_some, or_else, filter, any, is_blank, Result, ok, err,
  update_rows, ℕ, str_eq, ◌++◌, Option, false, true, List, Bool, none, ◌&&◌, ◌||◌, map, not, ◌∷◌,
  String, some, [],
}
use danshi_backend.Access.Authz.{
  UserRole, is_managed_role, role_user, role_dict_reviewer, role_moderator, role_super_admin,
  other_role,
}
use danshi_backend.Accounts.Data.{
  User, UserBanRecord, RoleAction, UserRoleBinding, Accounts, ban, unban, grant, revoke_role,
}
use danshi_backend.Accounts.Requests.{
  out_of_range, ◌>>=◌, found, invalid_field, AccountError, Request, ◌>>◌, and_then, done, check,
  read, lift, write, required, too_long, invalid_enum, conflict, user_not_found,
}
use danshi_backend.Accounts.Sessions.{find_user, revoke_all}
use danshi_backend.Accounts.Validation.{trim_space}

-- `UpdateAdminUserStatusInput`.
pub record StatusInput : Type 0 where
  pub is_active : Option Bool
  pub wants_permanent : Option Bool
  pub until : Option ℕ
  pub reason : Option String
  pub legacy_reason : Option String

-- `UserBanState`.
pub record BanState : Type 0 where
  pub is_permanent : Bool
  pub until : Option ℕ
  pub reason : Option String
  pub actor_id : Option ℕ

abbrev pub unbanned : BanState
unbanned = record { is_permanent = false; until = none; reason = none; actor_id = none }

-- `normalizeBanReason`.
abbrev pub normalize_ban_reason : Option String → Result AccountError String
normalize_ban_reason none = err (invalid_field "ban_reason" required)
normalize_ban_reason (some reason) =
    if is_blank reason
    then err (invalid_field "ban_reason" required)
    else if ltb 200 (len (trim_space reason))
    then err (invalid_field "ban_reason" too_long)
    else ok (trim_space reason)

-- `permanentBan` and `timedBan`.
abbrev pub ban_with : Bool → Option ℕ → Option String → ℕ → Result AccountError (BanState × Bool)
ban_with forever until reason actor = and_then (normalize_ban_reason reason) (λ text. ok (
  record { is_permanent = forever; until = until; reason = some text; actor_id = some actor },
  true,
))

-- `normalizeLegacyAdminBan`.
abbrev pub normalize_legacy_ban : Bool → StatusInput → ℕ → Result AccountError (BanState × Bool)
normalize_legacy_ban active input actor =
    if is_some input.wants_permanent || is_some input.until || is_some input.reason
    then err (invalid_field "is_active" conflict)
    else if active
    then (if is_some input.legacy_reason
        then err (invalid_field "reason" conflict)
        else ok (unbanned, false))
    else ban_with true none input.legacy_reason actor

abbrev pub normalize_timed_ban :
    ℕ → Option ℕ → StatusInput → ℕ → Result AccountError (BanState × Bool)
normalize_timed_ban now (some until) input actor =
    if leb until now
    then err (invalid_field "banned_until" out_of_range)
    else ban_with false (some until) input.reason actor
normalize_timed_ban now none input actor =
    if not (is_some input.wants_permanent)
    then err (invalid_field "ban_is_permanent" required)
    else if is_some input.reason || is_some input.legacy_reason
    then err (invalid_field "ban_reason" conflict)
    else ok (unbanned, false)

-- `normalizeAdminBan`: the state to write, and whether it is a ban.
unfoldable pub normalize_admin_ban : StatusInput → ℕ → ℕ → Result AccountError (BanState × Bool)
normalize_admin_ban input actor now = elim input.is_active [
  | some active ↦ normalize_legacy_ban active input actor
  | none ↦
      if or_else input.wants_permanent false && is_some input.until
      then err (invalid_field "banned_until" conflict)
      else if or_else input.wants_permanent false
      then ban_with true none input.reason actor
      else normalize_timed_ban now input.until input actor
]

-- `UpdateUserBan`.
abbrev pub set_ban : BanState → User → User
set_ban b u = record u {
  ban_is_permanent = b.is_permanent;
  banned_until = b.until;
  ban_reason = b.reason;
  banned_by = b.actor_id;
}

unfoldable pub update_user_ban : ℕ → BanState → Accounts → Accounts
update_user_ban id b s = record s {
  users = update_rows (λ (u : User). u.id == id && not (is_some u.deleted_at)) (set_ban b) s.users;
}

abbrev pub ban_record_of : ℕ → BanState → Bool → ℕ → UserBanRecord
ban_record_of user_id b banned actor = record {
  user_id = user_id;
  action = if banned then ban else unban;
  ban_is_permanent = b.is_permanent;
  banned_until = b.until;
  reason = b.reason;
  actor_id = actor;
}

-- `UpdateUserStatus`: a ban revokes all sessions in the same transaction.
unfoldable pub update_user_status : ℕ → ℕ → StatusInput → ℕ → Request Bool
update_user_status user_id actor input now = do
  ban_state ← lift (normalize_admin_ban input actor now)
  user ← read (find_user user_id)
  u ← found user user_not_found
  write (update_user_ban user_id ban_state.0)
  write (λ s. record s {
    ban_records = s.ban_records ++ (ban_record_of user_id ban_state.0 ban_state.1 actor ∷ []);
  })
  if ban_state.1 then write (revoke_all user_id now) else done tt
  done ban_state.1

abbrev pub role_text : UserRole → String
role_text role_user = "user"
role_text role_dict_reviewer = "dict_reviewer"
role_text role_moderator = "moderator"
role_text role_super_admin = "super_admin"
role_text (other_role text) = text

abbrev pub is_binding : ℕ → UserRole → UserRoleBinding → Bool
is_binding user_id role b = b.user_id == user_id && str_eq (role_text b.role) (role_text role)

-- `GrantUserRole` and `RevokeUserRole`: whether a row changes, and the rows.
abbrev pub grant_user_role : ℕ → UserRole → ℕ → List UserRoleBinding → Bool × List UserRoleBinding
grant_user_role user_id role actor rows =
    if any (is_binding user_id role) rows
    then (false, rows)
    else (true, rows ++ (record { user_id = user_id; role = role; granted_by = actor } ∷ []))

abbrev pub revoke_user_role : ℕ → UserRole → List UserRoleBinding → Bool × List UserRoleBinding
revoke_user_role user_id role rows =
    (any (is_binding user_id role) rows, filter (λ b. not (is_binding user_id role b)) rows)

abbrev pub change_role :
    RoleAction → ℕ → UserRole → ℕ → List UserRoleBinding → Bool × List UserRoleBinding
change_role grant user_id role actor rows = grant_user_role user_id role actor rows
change_role revoke_role user_id role actor rows = revoke_user_role user_id role rows

-- `UpdateUserRole`, after its texts are read: a record is written only of a change. The result says
-- whether there was one, and which roles the user has now.
unfoldable pub update_user_role : ℕ → ℕ → UserRole → RoleAction → Request (Bool × List UserRole)
update_user_role user_id actor role action = do
  check (is_managed_role role) (invalid_field "role" invalid_enum)
  user ← read (find_user user_id)
  u ← found user user_not_found
  changed ← read (λ s. change_role action user_id role actor s.role_bindings)
  write (λ s. record s {
    role_bindings = changed.1;
    role_records =
        if changed.0
        then s.role_records
          ++ (record { user_id = user_id; role = role; action = action; actor_id = actor } ∷ [])
        else s.role_records;
  })
  roles ← read (λ s. filter (λ (b : UserRoleBinding). b.user_id == user_id) s.role_bindings)
  done (changed.0, map (λ (b : UserRoleBinding). b.role) roles)
