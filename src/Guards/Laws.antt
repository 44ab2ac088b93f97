-- ===== src/Guards/Laws.antt =====
-- Whom the guards let pass: apps/api/src/common/guards.
use mathlib.Core.Option.{map as map_option}
use vertxing.Prelude.{
  String, ◌≡◌, refl, Bool, true, false, not, Option, none, some, arith, if◌then◌else◌,
}
use vertxing.Http.{forbidden, not_found, Result, ok, throws}
use vertxing.Permission.{Permission, has_permission}
use vertxing.Database.Tables.{Tables, UserWithRole, is_db_super_admin, user_by_id, join, query}
use vertxing.Database.Query.{ret, throw, or_throw, run, ◌>>=◌}
use vertxing.Users.Service.{
  get_public_by_id, find_by_id, to_public_user, permissions_of, to_user_role,
}
use vertxing.Guards.{attempt, holds, permission_guard, is_super, super_admin_guard}

-- The account that a request comes from, as the tables have it now.
unfoldable pub account : String → Tables → Option UserWithRole
account id t = map_option (join t.roles) (user_by_id id t.users)

unfoldable pub grants : Permission → Option UserWithRole → Bool
unfolding permissions_of
grants p none = false
grants p (some u) = has_permission (permissions_of u) p

module _ (t : Tables) where
  abbrev pub verdict : Bool → String → Result Bool × Tables
  verdict b message = if b then (ok true, t) else (throws (forbidden message), t)

  decided :
      (p : Permission) (o : Option UserWithRole)
      → run
          (attempt (or_throw (not_found "User not found") o >>= λ found. ret (to_public_user found))
            >>= λ profile.
                if not (holds p profile)
                then throw (forbidden "You do not have permission to do that")
                else ret true)
          t
        ≡ verdict (grants p o) "You do not have permission to do that"
  unfolding holds grants to_public_user permissions_of has_permission
  decided p none = refl
  decided p (some u) = ground arith

  -- A request that needs a permission passes exactly when its account exists and holds the permission
  -- at that moment, whatever its token says; the tables stay.
  pub permission_guard-verdict :
      (p : Permission) (id : String)
      → run (permission_guard (some p) (some id)) t
        ≡ verdict (grants p (account id t)) "You do not have permission to do that"
  unfolding permission_guard get_public_by_id find_by_id query account
  permission_guard-verdict p id = decided p (map_option (join t.roles) (user_by_id id t.users))

  abbrev pub is_super_row : Option UserWithRole → Bool
  is_super_row none = false
  is_super_row (some u) = is_db_super_admin u.row.role

  decided_super :
      (o : Option UserWithRole)
      → run
          (attempt (or_throw (not_found "User not found") o >>= λ found. ret (to_public_user found))
            >>= λ profile.
                if not (is_super profile)
                then throw (forbidden "Super-admin access required")
                else ret true)
          t
        ≡ verdict (is_super_row o) "Super-admin access required"
  unfolding is_super to_public_user to_user_role
  decided_super none = refl
  decided_super (some u) = ground arith

  -- A request to a route of super-admins, as those of the licences are, passes exactly when the account
  -- that its token names exists and its row says super-admin at that moment, whatever role the token
  -- carries and whatever its custom role holds; the tables stay.
  pub super_admin_guard-verdict :
      (id : String)
      → run (super_admin_guard (some id)) t
        ≡ verdict (is_super_row (account id t)) "Super-admin access required"
  unfolding super_admin_guard get_public_by_id find_by_id query account
  super_admin_guard-verdict id = decided_super (map_option (join t.roles) (user_by_id id t.users))
