-- ===== src/Users/Manage.antt =====
-- Privileged account management: the second half of
-- apps/api/src/modules/users/users.service.ts. The operations on many accounts are not modelled.
use vertxing.Prelude.{
  ℕ, String, Bool, true, false, not, ◌&&◌, Option, none, some, ◌==◌, leb, ltb, if◌then◌else◌,
}
use vertxing.Http.{bad_request, forbidden, not_found}
use vertxing.Permission.{UserRole, user, admin, super_admin}
use vertxing.Database.Tables.{Role, UserWithRole, disconnect, connect, UserUpdate, no_update}
use vertxing.Database.Query.{Db, ret, throw, or_throw, ◌>>=◌, ◌>>◌}
use vertxing.Users.Service.{
  to_user_role, to_prisma_user_role, is_super_admin, find_by_id, update, delete, count_super_admins,
  role_exists,
}

-- `TIER`
abbrev pub tier : UserRole → ℕ
tier user = 1
tier admin = 2
tier super_admin = 3

-- A role to assign: left out, cleared (`null`), or one of the custom roles.
pub data RoleChoice : Type 0 where
  undefined null : RoleChoice
  assign : String → RoleChoice

pub record UpdateUserRequest : Type 0 where
  pub role : Option UserRole
  pub custom_role_id : RoleChoice
  pub calls_enabled : Option Bool

pub record RoleSummary : Type 0 where
  pub id : String
  pub name : String

pub record AdminUser : Type 0 where
  pub id : String
  pub email : String
  pub display_name : String
  pub role : UserRole
  pub custom_role : Option RoleSummary
  pub calls_enabled : Bool
  pub created_at : ℕ

abbrev summary : Option Role → Option RoleSummary
summary none = none
summary (some r) = some record { id = r.id; name = r.name }

unfoldable pub to_admin_user : UserWithRole → AdminUser
unfolding to_user_role
to_admin_user u = record {
  id = u.row.id;
  email = u.row.email;
  display_name = u.row.display_name;
  role = to_user_role u.row.role;
  custom_role = summary u.custom_role;
  calls_enabled = u.row.calls_enabled;
  created_at = u.row.created_at;
}

unfoldable pub effective_new_role : UpdateUserRequest → Option UserRole
effective_new_role changes = elim changes.custom_role_id [ assign r ↦ some user | _ ↦ changes.role ]

-- `newRole === UserRole.SUPER_ADMIN`
abbrev pub grants_super : Option UserRole → Bool
grants_super none = false
grants_super (some r) = is_super_admin r

-- `newRole !== undefined && newRole !== UserRole.SUPER_ADMIN`
abbrev pub demotes : Option UserRole → Bool
demotes none = false
demotes (some r) = not (is_super_admin r)

unfoldable pub guard_last_super_admin : Bool → Db (Unit {0})
unfolding count_super_admins
guard_last_super_admin false = ret tt
guard_last_super_admin true = do
  n ← count_super_admins
  if leb n 1 then throw (bad_request "Cannot remove the last super-admin") else ret tt

-- The checks on `actorRole`, `targetRole` and `newRole`.
unfoldable pub assert_roles : UserRole → UserRole → Option UserRole → Db (Unit {0})
unfolding guard_last_super_admin
assert_roles actor_role target_role new_role =
    if ltb (tier actor_role) (tier target_role)
    then throw (forbidden "You can’t manage someone with a higher role")
    else if grants_super new_role && not (is_super_admin actor_role)
    then throw (forbidden "Only a super-admin can grant super-admin")
    else guard_last_super_admin (is_super_admin target_role && demotes new_role)

unfoldable pub assert_actor_may_manage :
    UserWithRole → UserWithRole → Option UserRole → Db (Unit {0})
unfolding to_user_role assert_roles
assert_actor_may_manage actor target new_role =
    assert_roles (to_user_role actor.row.role) (to_user_role target.row.role) new_role

unfoldable pub role_update : Option UserRole → UserUpdate → UserUpdate
unfolding to_prisma_user_role
role_update none fields = fields
role_update (some r) fields = record fields {
  role = some (to_prisma_user_role r);
  custom_role = disconnect;
}

-- The data that a request writes; assigning a custom role asks whether the role exists.
unfoldable pub assignment : RoleChoice → Option UserRole → UserUpdate → Db UserUpdate
unfolding to_prisma_user_role role_exists role_update
assignment undefined role fields = ret (role_update role fields)
assignment null role fields = ret (record fields { custom_role = disconnect })
assignment (assign r) role fields = do
  known ← role_exists r
  if known
      then ret (record fields { role = some (to_prisma_user_role user); custom_role = connect r })
      else throw (not_found "Role not found")

-- `updateUser` once both rows are loaded.
unfoldable pub update_loaded :
    String → UpdateUserRequest → Option UserWithRole → Option UserWithRole → Db AdminUser
unfolding assert_actor_may_manage effective_new_role assignment update
update_loaded target_id changes actor target = do
  actor ← or_throw (forbidden "Authentication required") actor
  target ← or_throw (not_found "User not found") target
  assert_actor_may_manage actor target (effective_new_role changes)
  fields ←
      assignment changes.custom_role_id changes.role
        (record no_update { calls_enabled = changes.calls_enabled })
  changed ← update target_id fields
  ret (to_admin_user changed)

unfoldable pub update_user : String → String → UpdateUserRequest → Db AdminUser
unfolding find_by_id update_loaded
update_user actor_id target_id changes = do
  actor ← find_by_id actor_id
  target ← find_by_id target_id
  update_loaded target_id changes actor target

unfoldable pub guard_last_deletion : Bool → Db (Unit {0})
unfolding count_super_admins
guard_last_deletion false = ret tt
guard_last_deletion true = do
  n ← count_super_admins
  if leb n 1 then throw (bad_request "Cannot delete the last super-admin") else ret tt

-- `deleteUser` once both rows are loaded.
unfoldable pub delete_loaded : String → Option UserWithRole → Option UserWithRole → Db (Unit {0})
unfolding assert_actor_may_manage guard_last_deletion delete to_user_role
delete_loaded target_id actor target = do
  actor ← or_throw (forbidden "Authentication required") actor
  target ← or_throw (not_found "User not found") target
  assert_actor_may_manage actor target none
  guard_last_deletion (is_super_admin (to_user_role target.row.role))
  delete target_id
  ret tt

unfoldable pub delete_user : String → String → Db (Unit {0})
unfolding find_by_id delete_loaded
delete_user actor_id target_id =
    if actor_id == target_id then throw (bad_request "You can’t delete your own account") else (do
      actor ← find_by_id actor_id
      target ← find_by_id target_id
      delete_loaded target_id actor target)
