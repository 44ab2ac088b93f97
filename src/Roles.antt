-- ===== src/Roles.antt =====
-- Custom roles: the checks of apps/api/src/modules/roles/roles.service.ts. The table of roles is in
-- Store.
pub mod Sanitized
pub mod Store
pub mod Keys
pub mod Pages
pub mod Landing
mod Tests
use vertxing.Prelude.{
  String, Bool, true, false, ◌&&◌, ◌||◌, Option, none, some, List, [], ◌∷◌, ◌++◌, ◌==◌, map,
  if◌then◌else◌,
}
use vertxing.Permission.{
  Permission, users_manage, assignable_permissions, has_permission, to_permissions, add_all,
  visible_nav,
}

-- `filter((p) => allowed.has(p))`
unfoldable pub filter_allowed : List Permission → List Permission → List Permission
unfolding has_permission
filter_allowed allowed [] = []
filter_allowed allowed (p ∷ ps) =
    let rest = filter_allowed allowed ps in if has_permission allowed p then p ∷ rest else rest

unfoldable pub sanitize_permissions : List String → List Permission
unfolding filter_allowed add_all to_permissions
sanitize_permissions values =
    filter_allowed assignable_permissions (add_all (to_permissions values) [])

unfoldable pub includes : List String → String → Bool
includes [] s = false
includes (t ∷ ts) s = t == s || includes ts s

-- The pages that a role may land on.
unfoldable pub allowed_landings : List Permission → List String
unfolding visible_nav has_permission
allowed_landings permissions =
    map (λ n. n.href) (visible_nav permissions)
    ++ (if has_permission permissions users_manage
        then "/app/admin/users" ∷ "/app/admin/roles" ∷ []
        else [])

unfoldable pub clamp_landing : Option String → List Permission → String
unfolding includes allowed_landings
clamp_landing none permissions = "/app"
clamp_landing (some landing) permissions =
    if includes (allowed_landings permissions) landing then landing else "/app"
