-- ===== src/Users/Service.antt =====
-- The operations on accounts: apps/api/src/modules/users/users.service.ts, with user.mapper.ts and
-- users.repository.ts of the same directory.
use vertxing.Prelude.{ℕ, String, Bool, true, false, not, Option, none, some, List, ltb}
use vertxing.Http.{not_found, internal}
use vertxing.Permission.{
  UserRole, user, admin, super_admin, Permission, calls_start, has_permission, to_permissions,
  resolve_user_permissions,
}
use vertxing.Database.Tables.{
  DbRole, db_user, db_admin, db_super_admin, Role, User, UserWithRole, UserUpdate, no_update,
  find_unique, count_super_admins as super_admins_query, count_role, update as update_query,
  delete as delete_query,
}
use vertxing.Database.Query.{Db, ret, ask, or_throw, ◌>>=◌, ◌>>◌}

unfoldable pub to_user_role : DbRole → UserRole
to_user_role db_super_admin = super_admin
to_user_role db_admin = admin
to_user_role db_user = user

unfoldable pub to_prisma_user_role : UserRole → DbRole
to_prisma_user_role user = db_user
to_prisma_user_role admin = db_admin
to_prisma_user_role super_admin = db_super_admin

abbrev pub is_super_admin : UserRole → Bool
is_super_admin super_admin = true
is_super_admin _ = false

-- `customRole ? toPermissions(customRole.permissions) : null`
abbrev pub custom_permissions : Option Role → Option (List Permission)
custom_permissions none = none
custom_permissions (some r) = some (to_permissions r.permissions)

pub record PublicUser : Type 0 where
  pub id : String
  pub email : String
  pub display_name : String
  pub avatar_url : Option String
  pub role : UserRole
  pub permissions : List Permission
  pub role_name : String
  pub landing_path : String
  pub calls_enabled : Bool
  pub do_not_disturb : Bool
  pub created_at : ℕ

-- `ROLE_META[role].label`
abbrev pub role_label : UserRole → String
role_label user = "User"
role_label admin = "Admin"
role_label super_admin = "Super-admin"

abbrev name_or : Option Role → String → String
name_or none label = label
name_or (some r) label = r.name

abbrev landing_or : Option Role → String → String
landing_or none path = path
landing_or (some r) path = r.default_landing

unfoldable pub to_public_user : UserWithRole → PublicUser
unfolding to_user_role resolve_user_permissions
to_public_user u = record {
  id = u.row.id;
  email = u.row.email;
  display_name = u.row.display_name;
  avatar_url = u.row.avatar_url;
  role = to_user_role u.row.role;
  permissions =
      resolve_user_permissions (to_user_role u.row.role) u.row.calls_enabled
        (custom_permissions u.custom_role);
  role_name = name_or u.custom_role (role_label (to_user_role u.row.role));
  landing_path = landing_or u.custom_role "/app";
  calls_enabled = u.row.calls_enabled;
  do_not_disturb = u.row.do_not_disturb;
  created_at = u.row.created_at;
}

unfoldable pub find_by_id : String → Db (Option UserWithRole)
find_by_id id = ask (find_unique id) ret

unfoldable pub update : String → UserUpdate → Db UserWithRole
update id fields = ask (update_query id fields) (or_throw internal)

unfoldable pub delete : String → Db User
delete id = ask (delete_query id) (or_throw internal)

unfoldable pub count_super_admins : Db ℕ
count_super_admins = ask super_admins_query ret

unfoldable pub role_exists : String → Db Bool
role_exists role_id = ask (count_role role_id) (λ n. ret (ltb 0 n))

unfoldable pub get_public_by_id : String → Db PublicUser
get_public_by_id id = do
  found ← find_by_id id
  found ← or_throw (not_found "User not found") found
  ret (to_public_user found)

unfoldable pub update_me : String → Option Bool → Db PublicUser
update_me user_id do_not_disturb = do
  changed ← update user_id (record no_update { do_not_disturb = do_not_disturb })
  ret (to_public_user changed)

unfoldable pub available : Option UserWithRole → Bool
available none = false
available (some u) = not u.row.do_not_disturb

unfoldable pub accepts_calls : String → Db Bool
accepts_calls user_id = do found ← find_by_id user_id; ret (available found)

unfoldable pub permissions_of : UserWithRole → List Permission
unfolding to_user_role resolve_user_permissions
permissions_of u =
    resolve_user_permissions (to_user_role u.row.role) u.row.calls_enabled
      (custom_permissions u.custom_role)

unfoldable pub allowed_to_call : Option UserWithRole → Bool
unfolding permissions_of has_permission
allowed_to_call none = false
allowed_to_call (some u) = has_permission (permissions_of u) calls_start

unfoldable pub can_start_calls : String → Db Bool
unfolding allowed_to_call
can_start_calls user_id = do found ← find_by_id user_id; ret (allowed_to_call found)

unfoldable pub set_fcm_token : String → String → Db (Unit {0})
set_fcm_token user_id token = do
  update user_id (record no_update { fcm_token = some token })
  ret tt

unfoldable pub token_of : Option UserWithRole → Option String
token_of none = none
token_of (some u) = u.row.fcm_token

unfoldable pub get_fcm_token : String → Db (Option String)
get_fcm_token user_id = do found ← find_by_id user_id; ret (token_of found)
