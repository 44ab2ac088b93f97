-- ===== src/Permission.antt =====
-- Permissions, the built-in roles and the navigation:
-- packages/shared/src/types/permission.types.ts, with the enum UserRole of
-- packages/shared/src/types/user.types.ts. A `Set` is a list without repetition, in insertion order.
pub mod Laws
mod Tests
use vertxing.Prelude.{
  ℕ, String, Bool, true, false, not, ◌&&◌, ◌||◌, Option, none, some, List, [], ◌∷◌, ◌==◌,
  if◌then◌else◌,
}

pub data UserRole : Type 0 where
  user admin super_admin : UserRole

pub data Permission : Type 0 where
  meetings_host calls_start users_manage license_manage : Permission

abbrev pub is_permission : Permission → Permission → Bool
is_permission meetings_host meetings_host = true
is_permission calls_start calls_start = true
is_permission users_manage users_manage = true
is_permission license_manage license_manage = true
is_permission _ _ = false

abbrev pub permission_text : Permission → String
permission_text meetings_host = "meetings.host"
permission_text calls_start = "calls.start"
permission_text users_manage = "users.manage"
permission_text license_manage = "license.manage"

abbrev pub all_permissions : List Permission
all_permissions = meetings_host ∷ calls_start ∷ users_manage ∷ license_manage ∷ []

abbrev pub role_permissions : UserRole → List Permission
role_permissions user = meetings_host ∷ []
role_permissions admin = meetings_host ∷ calls_start ∷ users_manage ∷ []
role_permissions super_admin = meetings_host ∷ calls_start ∷ users_manage ∷ license_manage ∷ []

abbrev pub assignable_permissions : List Permission
assignable_permissions = meetings_host ∷ calls_start ∷ users_manage ∷ []

-- `permissions.includes(permission)`
unfoldable pub has_permission : List Permission → Permission → Bool
has_permission [] p = false
has_permission (q ∷ qs) p = is_permission q p || has_permission qs p

-- A stored text as a permission, if it is one: `isPermission` with the cast that it licenses.
unfoldable pub to_permission : String → Option Permission
to_permission value =
    if value == "meetings.host"
    then some meetings_host
    else if value == "calls.start"
    then some calls_start
    else if value == "users.manage"
    then some users_manage
    else if value == "license.manage"
    then some license_manage
    else none

abbrev keep : Option Permission → List Permission → List Permission
keep none ps = ps
keep (some p) ps = p ∷ ps

unfoldable pub to_permissions : List String → List Permission
unfolding to_permission
to_permissions [] = []
to_permissions (v ∷ vs) = keep (to_permission v) (to_permissions vs)

-- `set.add(p)`
unfoldable pub add : Permission → List Permission → List Permission
unfolding has_permission
add p [] = p ∷ []
add p (q ∷ qs) = if is_permission q p then q ∷ qs else q ∷ add p qs

-- `new Set(ps)`, from the elements already in it.
unfoldable pub add_all : List Permission → List Permission → List Permission
unfolding add
add_all [] set = set
add_all (p ∷ ps) set = add_all ps (add p set)

unfoldable pub role_always_has_calls : UserRole → Bool
unfolding has_permission
role_always_has_calls role = has_permission (role_permissions role) calls_start

abbrev pub or_else : Option (List Permission) → List Permission → List Permission
or_else none ps = ps
or_else (some qs) ps = qs

abbrev pub with_calls : Bool → List Permission → List Permission
with_calls calls_enabled set = if calls_enabled then add calls_start set else set

unfoldable pub resolve_user_permissions :
    UserRole → Bool → Option (List Permission) → List Permission
unfolding add_all
resolve_user_permissions super_admin calls_enabled custom = role_permissions super_admin
resolve_user_permissions role calls_enabled custom =
    with_calls calls_enabled (add_all (or_else custom (role_permissions role)) [])

unfoldable pub permissions_for_user : UserRole → Bool → List Permission
unfolding add_all
permissions_for_user role calls_enabled =
    with_calls calls_enabled (add_all (role_permissions role) [])

pub record NavItem : Type 0 where
  pub key : String
  pub label : String
  pub href : String
  pub required_permission : Option Permission

abbrev item : String → String → String → Option Permission → NavItem
item key label href needs = record {
  key = key;
  label = label;
  href = href;
  required_permission = needs;
}

abbrev pub app_nav : List NavItem
app_nav =
    item "home" "Home" "/app" none
    ∷ item "meetings" "Meetings" "/app/meetings" none
    ∷ item "contacts" "Contacts" "/app/contacts" (some calls_start)
    ∷ item "calls" "Calls" "/app/calls" (some calls_start)
    ∷ item "settings" "Settings" "/app/settings" none
    ∷ []

abbrev pub may_see : List Permission → Option Permission → Bool
may_see permissions none = true
may_see permissions (some p) = has_permission permissions p

unfoldable pub visible_from : List NavItem → List Permission → List NavItem
visible_from [] permissions = []
visible_from (i ∷ is) permissions =
    let rest = visible_from is permissions in
    if may_see permissions i.required_permission then i ∷ rest else rest

unfoldable pub visible_nav : List Permission → List NavItem
unfolding visible_from has_permission
visible_nav permissions = visible_from app_nav permissions
