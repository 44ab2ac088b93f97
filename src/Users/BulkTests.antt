-- ===== src/Users/BulkTests.antt =====
-- The theorems on changes to many accounts at concrete tables: users.service.ts, under
-- apps/api/src/modules/users.
use vertxing.Prelude.{◌≤◌, String, ◌≡◌, refl, false, none, some, [], ◌∷◌, arith}
use vertxing.Permission.{user}
use vertxing.Database.Tables.{
  Tables, User, DbRole, db_user, db_admin, db_super_admin, user_by_id, super_admins, rows_of,
  one_of,
}
use vertxing.Database.Query.{run}
use vertxing.Users.Service.{to_user_role}
use vertxing.Users.Manage.{UpdateUserRequest, undefined}
use vertxing.Users.Bulk.{bulk_update, distinct}
use vertxing.Users.BulkCases.{outranked}
use vertxing.Users.BulkLaws.{bulk_update_keeps_super_admin, bulk_update_all_or_nothing}

abbrev account : String → DbRole → User
account id role = record {
  id = id;
  email = id;
  display_name = id;
  avatar_url = none;
  role = role;
  custom_role_id = none;
  do_not_disturb = false;
  calls_enabled = false;
  fcm_token = none;
  created_at = 0;
}

abbrev office : Tables
office = record {
  users =
      account "root" db_super_admin
      ∷ account "ruth" db_super_admin
      ∷ account "amy" db_admin
      ∷ account "uli" db_user
      ∷ [];
  roles = [];
}

abbrev demotion : UpdateUserRequest
demotion = record { role = some user; custom_role_id = undefined; calls_enabled = none }

bulk_update_keeps_super_admin_example :
    1 ≤ super_admins (run (bulk_update "root" ("root" ∷ "ruth" ∷ []) demotion) office).1.users
unfolding super_admins
bulk_update_keeps_super_admin_example =
    bulk_update_keeps_super_admin "root" ("root" ∷ "ruth" ∷ []) demotion office (omega arith)

bulk_update_all_or_nothing_example :
    (run (bulk_update "amy" ("uli" ∷ "root" ∷ "uli" ∷ []) demotion) office).1 ≡ office
unfolding user_by_id rows_of one_of outranked distinct to_user_role
bulk_update_all_or_nothing_example =
    bulk_update_all_or_nothing "amy" ("uli" ∷ "root" ∷ "uli" ∷ []) demotion office
      record { row = account "amy" db_admin; custom_role = none } refl refl
