-- ===== src/Guards.antt =====
-- The guards of requests: apps/api/src/common/guards/permission.guard.ts and super-admin.guard.ts.
-- What the route's decorator requires and who the access token names are arguments.
pub mod Laws
mod Tests
use vertxing.Prelude.{String, Bool, true, false, not, Option, none, some, [], if◌then◌else◌}
use vertxing.Http.{forbidden}
use vertxing.Permission.{Permission, has_permission}
use vertxing.Database.Query.{Db, ret, throw, ask, ◌>>=◌}
use vertxing.Users.Service.{PublicUser, is_super_admin, get_public_by_id}

-- `try { return await p } catch { return undefined }`
abbrev pub attempt {ℓ} : {A : Type ℓ} → Db A → Db (Option A)
attempt (ret a) = ret (some a)
attempt (throw e) = ret none
attempt (ask q k) = ask q (λ r. attempt (k r))

-- A user who is not there has no permissions.
unfoldable pub holds : Permission → Option PublicUser → Bool
unfolding has_permission
holds required none = has_permission [] required
holds required (some u) = has_permission u.permissions required

-- `PermissionGuard.canActivate`
unfoldable pub permission_guard : Option Permission → Option String → Db Bool
unfolding get_public_by_id holds
permission_guard none user = ret true
permission_guard (some required) none = throw (forbidden "Authentication required")
permission_guard (some required) (some user_id) = do
  profile ← attempt (get_public_by_id user_id)
  if not (holds required profile)
      then throw (forbidden "You do not have permission to do that")
      else ret true

unfoldable pub is_super : Option PublicUser → Bool
is_super none = false
is_super (some u) = is_super_admin u.role

-- `SuperAdminGuard.canActivate`
unfoldable pub super_admin_guard : Option String → Db Bool
unfolding get_public_by_id is_super
super_admin_guard none = throw (forbidden "Authentication required")
super_admin_guard (some user_id) = do
  profile ← attempt (get_public_by_id user_id)
  if not (is_super profile) then throw (forbidden "Super-admin access required") else ret true
