-- ===== src/Users/Tests.antt =====
-- The theorems on accounts at concrete tables: users.service.ts, under apps/api/src/modules/users.
use vertxing.Prelude.{
  ◌≤◌, String, ◌≡◌, refl, true, false, Option, none, some, [], ◌∷◌, ◌⊎◌, ◌==◌, arith,
}
use vertxing.Http.{ok}
use vertxing.Permission.{UserRole, user, admin}
use vertxing.Database.Tables.{
  Tables, User, DbRole, db_user, db_admin, db_super_admin, user_by_id, super_admins, query,
  update_at,
}
use vertxing.Database.Query.{run}
use vertxing.Users.Service.{find_by_id, update, to_user_role, to_prisma_user_role}
use vertxing.Users.Manage.{
  UpdateUserRequest, AdminUser, undefined, assign, update_user, delete_user, update_loaded,
  assert_actor_may_manage, assert_roles, guard_last_super_admin, effective_new_role, assignment,
  role_update,
}
use vertxing.Users.Authority.{Refused, Wrote, update_user-cases}
use vertxing.Users.Deletion.{Deleted, delete_user-cases}
use vertxing.Users.SuperAdmins.{updates, deletes, manage, manage_all, super_admin_remains}
use vertxing.Users.Tiers.{
  all_at_base, custom_role_at_base, super_admin_untouched, super_admin_not_granted, to_admin,
  user_makes_itself_admin,
}

abbrev account : String → DbRole → Option String → User
account id role custom_role_id = record {
  id = id;
  email = id;
  display_name = id;
  avatar_url = none;
  role = role;
  custom_role_id = custom_role_id;
  do_not_disturb = false;
  calls_enabled = false;
  fcm_token = none;
  created_at = 0;
}

-- A root, an admin, and a user whose custom role manages users.
abbrev office : Tables
office = record {
  users =
      account "root" db_super_admin none
      ∷ account "amy" db_admin none
      ∷ account "uli" db_user (some "lead")
      ∷ [];
  roles =
      record {
        id = "lead";
        name = "Lead";
        permissions = "users.manage" ∷ [];
        default_landing = "/app";
      }
      ∷ [];
}

abbrev promotes : UserRole → UpdateUserRequest
promotes r = record { role = some r; custom_role_id = undefined; calls_enabled = some true }

super_admin_remains_example :
    1
    ≤ super_admins
        (manage_all
          (updates "root" "root" (promotes user) ∷ deletes "amy" "root" ∷ deletes "root" "amy" ∷ [])
          office).users
unfolding super_admins
super_admin_remains_example =
    super_admin_remains
      (updates "root" "root" (promotes user) ∷ deletes "amy" "root" ∷ deletes "root" "amy" ∷ [])
      office (omega arith)

super_admin_untouched_example :
    user_by_id "root" (manage (updates "amy" "root" (promotes user)) office).users
    ≡ some (account "root" db_super_admin none)
unfolding user_by_id
super_admin_untouched_example =
    super_admin_untouched (updates "amy" "root" (promotes user)) office "root"
      (account "amy" db_admin none) (account "root" db_super_admin none) refl refl refl refl

super_admin_not_granted_example :
    user_by_id "root" office.users ≡ some (account "root" db_super_admin none)
unfolding update_user find_by_id query update_loaded assert_actor_may_manage assert_roles
    guard_last_super_admin effective_new_role assignment role_update to_user_role
    to_prisma_user_role update user_by_id update_at
super_admin_not_granted_example =
    super_admin_not_granted "amy" "uli" (promotes admin) office "root" (account "amy" db_admin none)
      (account "root" db_super_admin none) refl refl refl refl

custom_role_at_base_example :
    all_at_base
      (manage_all
        (updates "root" "amy"
            (record { role = some admin; custom_role_id = assign "lead"; calls_enabled = none })
          ∷ [])
        office).users
    ≡ true
unfolding all_at_base
custom_role_at_base_example =
    custom_role_at_base
      (updates "root" "amy"
          (record { role = some admin; custom_role_id = assign "lead"; calls_enabled = none })
        ∷ [])
      office refl

update_user-cases_example :
    Refused (update_user "root" "amy" (promotes user)) office
    ⊎ (((x : AdminUser) × ((run (update_user "root" "amy" (promotes user)) office).0 ≡ ok x))
        × Wrote
            (user_by_id "root" office.users)
            (user_by_id "amy" office.users)
            "amy"
            (promotes user)
            office
            (run (update_user "root" "amy" (promotes user)) office).1)
update_user-cases_example = update_user-cases "root" "amy" (promotes user) office

delete_user-cases_example :
    Refused (delete_user "root" "amy") office
    ⊎ ((("root" == "amy") ≡ false)
        × Deleted
            (user_by_id "root" office.users)
            (user_by_id "amy" office.users)
            "amy"
            office
            (run (delete_user "root" "amy") office).1)
delete_user-cases_example = delete_user-cases "root" "amy" office

user_makes_itself_admin_example :
    user_by_id "uli" (run (update_user "uli" "uli" to_admin) office).1.users
    ≡ some (account "uli" db_admin none)
unfolding user_by_id
user_makes_itself_admin_example =
    user_makes_itself_admin "uli" office (account "uli" db_user (some "lead")) refl refl
