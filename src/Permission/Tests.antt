-- ===== src/Permission/Tests.antt =====
-- The theorems on permissions at concrete roles: permission.types.ts, under
-- packages/shared/src/types.
use vertxing.Prelude.{◌≡◌, refl, true, false, ◌&&◌, ◌||◌, some, [], ◌∷◌, map, if◌then◌else◌}
use vertxing.Permission.{
  user, admin, calls_start, users_manage, license_manage, has_permission, is_permission, or_else,
  role_permissions, resolve_user_permissions, visible_nav,
}
use vertxing.Permission.Laws.{resolve_exact, license_needs_super, visible_nav_exact}

resolve_exact_example :
    has_permission (resolve_user_permissions user true (some (users_manage ∷ []))) calls_start ≡ (
      has_permission (or_else (some (users_manage ∷ [])) (role_permissions user)) calls_start
      || (true && is_permission calls_start calls_start))
resolve_exact_example = resolve_exact user true (some (users_manage ∷ [])) calls_start (λ e. cc)

license_needs_super_example :
    has_permission (resolve_user_permissions admin true (some (users_manage ∷ []))) license_manage
    ≡ false
unfolding has_permission
license_needs_super_example =
    license_needs_super admin true (some (users_manage ∷ [])) (λ e. cc) refl

visible_nav_exact_example : map (λ i. i.key) (visible_nav (calls_start ∷ [])) ≡ (
    if has_permission (calls_start ∷ []) calls_start
    then "home" ∷ "meetings" ∷ "contacts" ∷ "calls" ∷ "settings" ∷ []
    else "home" ∷ "meetings" ∷ "settings" ∷ [])
visible_nav_exact_example = visible_nav_exact (calls_start ∷ [])
