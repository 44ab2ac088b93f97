-- ===== src/Permission/Laws.antt =====
-- What the resolved permissions are: packages/shared/src/types/permission.types.ts.
use vertxing.Prelude.{
  ◌≡◌, ◌≢◌, refl, Bool, true, false, ◌&&◌, ◌||◌, Option, none, some, List, [], ◌∷◌, arith,
  if◌then◌else◌, map, ◌↔◌,
}
use vertxing.Permission.{
  UserRole, user, admin, super_admin, Permission, meetings_host, calls_start, users_manage,
  license_manage, is_permission, permission_text, role_permissions, has_permission, to_permission,
  to_permissions, add, add_all, resolve_user_permissions, permissions_for_user, visible_nav,
  or_else, with_calls, role_always_has_calls,
}

is_permission_trans :
    (p q r : Permission) → is_permission p q ≡ true → is_permission p r ≡ is_permission q r
is_permission_trans p q r h = ground arith

pub has_permission-add :
    (p q : Permission) (s : List Permission)
    → has_permission (add p s) q ≡ (is_permission p q || has_permission s q)
unfolding add
has_permission-add p q [] = ground arith
has_permission-add p q (r ∷ s) = ground (arith, has_permission-add p q s, is_permission_trans r p q)

pub has_permission-add_all :
    (ps : List Permission) (q : Permission) (s : List Permission)
    → has_permission (add_all ps s) q ≡ (has_permission ps q || has_permission s q)
unfolding add_all has_permission
has_permission-add_all [] q s = refl
has_permission-add_all (p ∷ ps) q s =
    ground (arith, has_permission-add_all ps q (add p s), has_permission-add p q s)

has_permission-with_calls :
    (b : Bool) (s : List Permission) (p : Permission)
    → has_permission (with_calls b s) p ≡ (has_permission s p || (b && is_permission calls_start p))
has_permission-with_calls b s p = ground (arith, has_permission-add calls_start p s)

overlaid :
    (b : Bool) (base : List Permission) (p : Permission)
    → has_permission (with_calls b (add_all base [])) p
      ≡ (has_permission base p || (b && is_permission calls_start p))
unfolding has_permission
overlaid b base p =
    ground
      (arith, has_permission-with_calls b (add_all base []) p, has_permission-add_all base p [])

-- The permissions of a user who is no super-admin are exactly those of the custom role, or of the
-- built-in role where there is none, and `calls.start` if the user's lever is on.
pub resolve_exact :
    (role : UserRole) (calls_enabled : Bool) (custom : Option (List Permission)) (p : Permission)
    → role ≢ super_admin
    → has_permission (resolve_user_permissions role calls_enabled custom) p ≡ (
        has_permission (or_else custom (role_permissions role)) p
        || (calls_enabled && is_permission calls_start p))
unfolding resolve_user_permissions
resolve_exact user calls_enabled custom p h = overlaid calls_enabled _ p
resolve_exact admin calls_enabled custom p h = overlaid calls_enabled _ p
resolve_exact super_admin calls_enabled custom p h = absurd (h refl)

-- A super-admin holds every permission, whatever the lever and the custom role say.
pub resolve_super :
    (calls_enabled : Bool) (custom : Option (List Permission)) (p : Permission)
    → has_permission (resolve_user_permissions super_admin calls_enabled custom) p ≡ true
unfolding resolve_user_permissions has_permission
resolve_super calls_enabled custom p = ground arith

-- Nobody but a super-admin is given `license.manage`, whatever the lever says, as long as the custom
-- role, if there is one, does not hold it.
pub license_needs_super :
    (role : UserRole) (calls_enabled : Bool) (custom : Option (List Permission))
    → role ≢ super_admin
    → has_permission (or_else custom []) license_manage ≡ false
    → has_permission (resolve_user_permissions role calls_enabled custom) license_manage ≡ false
unfolding has_permission
license_needs_super user calls_enabled none n clean =
    ground (arith, resolve_exact user calls_enabled none license_manage n)
license_needs_super user calls_enabled (some qs) n clean =
    ground (arith, resolve_exact user calls_enabled (some qs) license_manage n)
license_needs_super admin calls_enabled none n clean =
    ground (arith, resolve_exact admin calls_enabled none license_manage n)
license_needs_super admin calls_enabled (some qs) n clean =
    ground (arith, resolve_exact admin calls_enabled (some qs) license_manage n)
license_needs_super super_admin calls_enabled custom n clean = absurd (n refl)

-- Without a custom role the two resolvers give the same list.
pub resolve-permissions_for_user :
    (role : UserRole) (calls_enabled : Bool)
    → resolve_user_permissions role calls_enabled none ≡ permissions_for_user role calls_enabled
unfolding resolve_user_permissions permissions_for_user
resolve-permissions_for_user user true = refl
resolve-permissions_for_user user false = refl
resolve-permissions_for_user admin true = refl
resolve-permissions_for_user admin false = refl
resolve-permissions_for_user super_admin true = refl
resolve-permissions_for_user super_admin false = refl

to_permission-text : (p : Permission) → to_permission (permission_text p) ≡ some p
unfolding to_permission
to_permission-text meetings_host = refl
to_permission-text calls_start = refl
to_permission-text users_manage = refl
to_permission-text license_manage = refl

-- Permissions survive being stored as texts, in order and with their repetitions.
pub to_permissions-text : (ps : List Permission) → to_permissions (map permission_text ps) ≡ ps
unfolding to_permissions
to_permissions-text [] = refl
to_permissions-text (p ∷ ps) = rw (to_permission-text p, to_permissions-text ps)

-- The built-in roles that always hold `calls.start` are those for which the lever changes nothing.
pub role_always_has_calls_exact :
    (role : UserRole)
    → (role_always_has_calls role ≡ true)
      ↔ (has_permission (resolve_user_permissions role false none) calls_start ≡ true)
unfolding role_always_has_calls resolve_user_permissions has_permission
role_always_has_calls_exact user = (λ h. h, λ h. h)
role_always_has_calls_exact admin = (λ h. h, λ h. h)
role_always_has_calls_exact super_admin = (λ h. h, λ h. h)

-- A nav item shows exactly when it needs no permission or the permission is held: the calling
-- pages stand behind `calls.start`.
pub visible_nav_exact :
    (permissions : List Permission)
    → map (λ i. i.key) (visible_nav permissions) ≡ (
        if has_permission permissions calls_start
        then "home" ∷ "meetings" ∷ "contacts" ∷ "calls" ∷ "settings" ∷ []
        else "home" ∷ "meetings" ∷ "settings" ∷ [])
unfolding visible_nav
visible_nav_exact permissions = ground arith
