-- ===== src/Guards/Tests.antt =====
-- The guards at concrete accounts: apps/api/src/common/guards.
use vertxing.Prelude.{◌≡◌, false, none, some, [], ◌∷◌}
use vertxing.Http.{forbidden, throws}
use vertxing.Permission.{users_manage}
use vertxing.Database.Tables.{Tables, User, Role, db_user, user_by_id, role_by_id}
use vertxing.Database.Query.{run}
use vertxing.Guards.{permission_guard, super_admin_guard}
use vertxing.Guards.Laws.{
  account, grants, verdict, permission_guard-verdict, super_admin_guard-verdict,
}

abbrev lena : User
lena = record {
  id = "lena";
  email = "lena@x";
  display_name = "Lena";
  avatar_url = none;
  role = db_user;
  custom_role_id = some "lead";
  do_not_disturb = false;
  calls_enabled = false;
  fcm_token = none;
  created_at = 1;
}

abbrev lead : Role
lead = record {
  id = "lead";
  name = "Team lead";
  permissions = "users.manage" ∷ [];
  default_landing = "/app";
}

abbrev team : Tables
team = record { users = lena ∷ []; roles = lead ∷ [] }

permission_guard-verdict_example :
    run (permission_guard (some users_manage) (some "lena")) team
    ≡ verdict team
        (grants users_manage (account "lena" team))
        "You do not have permission to do that"
permission_guard-verdict_example = permission_guard-verdict team users_manage "lena"

super_admin_guard-verdict_example :
    run (super_admin_guard (some "lena")) team
    ≡ (throws (forbidden "Super-admin access required"), team)
unfolding account user_by_id role_by_id
super_admin_guard-verdict_example = super_admin_guard-verdict team "lena"
