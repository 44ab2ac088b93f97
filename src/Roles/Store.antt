-- ===== src/Roles/Store.antt =====
-- The table of custom roles and the operations on it: `list`, `create`, `update` and `remove` of
-- apps/api/src/modules/roles/roles.service.ts, with roles.repository.ts of the same directory. The id
-- and the time of a new role are arguments. A request runs whole.
use Prim.Native.String.{◌++◌ as cat}
use vertxing.Prelude.{
  ℕ, zero, suc, String, Bool, true, false, Option, none, some, List, [], ◌∷◌, ◌++◌, ◌==◌, map,
  if◌then◌else◌, is_text, is_some, length,
}
use vertxing.Prelude.Ascii.{to_lower_case, trim, slug, decimal, is_empty}
use vertxing.Http.{bad_request, not_found, internal, Result, ok, throws}
use vertxing.Permission.{Permission, permission_text, to_permissions}
use vertxing.Roles.{sanitize_permissions, clamp_landing}

-- A row of the table `roles`.
pub record Role : Type 0 where
  pub id : String
  pub name : String
  pub key : String
  pub permissions : List String
  pub default_landing : String
  pub created_at : ℕ

-- The roles, and each account's custom role.
pub record Store : Type 0 where
  pub roles : List Role
  pub members : List (String × Option String)

pub record CustomRole : Type 0 where
  pub id : String
  pub name : String
  pub key : String
  pub permissions : List Permission
  pub default_landing : String
  pub member_count : ℕ
  pub created_at : ℕ

pub record CreateRoleRequest : Type 0 where
  pub name : String
  pub permissions : List String
  pub default_landing : Option String

pub record UpdateRoleRequest : Type 0 where
  pub name : Option String
  pub permissions : Option (List String)
  pub default_landing : Option String

unfoldable pub find_by_id : String → List Role → Option Role
find_by_id id [] = none
find_by_id id (r ∷ rs) = if r.id == id then some r else find_by_id id rs

unfoldable pub find_by_key : String → List Role → Option Role
find_by_key key [] = none
find_by_key key (r ∷ rs) = if r.key == key then some r else find_by_key key rs

-- `_count.members`
unfoldable pub member_count : String → List (String × Option String) → ℕ
member_count id [] = 0
member_count id ((user_id, role) ∷ ms) =
    let n = member_count id ms in if is_text role id then suc n else n

unfoldable pub to_custom_role : Store → Role → CustomRole
unfolding to_permissions member_count
to_custom_role st r = record {
  id = r.id;
  name = r.name;
  key = r.key;
  permissions = to_permissions r.permissions;
  default_landing = r.default_landing;
  member_count = member_count r.id st.members;
  created_at = r.created_at;
}

unfoldable pub list : Store → List CustomRole
unfolding to_custom_role
list st = map (to_custom_role st) st.roles

-- The loop of `uniqueKey`: from a key and the number that the next one takes.
unfoldable pub free_key : ℕ → String → ℕ → String → List Role → Option String
unfolding find_by_key decimal
free_key zero base n key roles = none
free_key (suc fuel) base n key roles =
    let rest = free_key fuel base (suc n) (cat base (cat "-" (decimal n))) roles in
    if is_some (find_by_key key roles) then rest else some key

unfoldable pub base_key : String → String
unfolding to_lower_case slug
base_key name = let s = slug (to_lower_case name) in if is_empty s then "role" else s

-- One round more than there are roles.
unfoldable pub unique_key : String → List Role → Option String
unfolding free_key base_key
unique_key name roles = let base = base_key name in free_key (suc (length roles)) base 2 base roles

unfoldable pub add_role :
    String
    → ℕ
    → String
    → List Permission
    → String
    → Option String
    → Store
    → Result CustomRole × Store
unfolding to_custom_role
add_role id now name permissions landing none st = (throws internal, st)
add_role id now name permissions landing (some key) st =
    let r : Role = record {
      id = id;
      name = name;
      key = key;
      permissions = map permission_text permissions;
      default_landing = landing;
      created_at = now;
    } in
    let st' : Store = record st { roles = st.roles ++ (r ∷ []) } in (ok (to_custom_role st' r), st')

abbrev none_picked : List Permission → Bool
none_picked [] = true
none_picked (p ∷ ps) = false

unfoldable pub create : String → ℕ → CreateRoleRequest → Store → Result CustomRole × Store
unfolding trim sanitize_permissions clamp_landing unique_key add_role
create id now dto st =
    let name = trim dto.name in
    let permissions = sanitize_permissions dto.permissions in
    if is_empty name
    then (throws (bad_request "Role name is required"), st)
    else if none_picked permissions
    then (throws (bad_request "Pick at least one permission"), st)
    else add_role id now name permissions (clamp_landing dto.default_landing permissions)
        (unique_key name st.roles) st

-- The columns that `update` writes, `none` for one that is left as it is.
pub record RoleUpdate : Type 0 where
  pub name : Option String
  pub permissions : Option (List Permission)
  pub default_landing : Option String

abbrev pub or_kept {ℓ} : {A : Type ℓ} → Option A → A → A
or_kept none x = x
or_kept (some y) x = y

abbrev pub texts : Option (List Permission) → List String → List String
texts none ps = ps
texts (some qs) ps = map permission_text qs

abbrev pub updated : RoleUpdate → Role → Role
updated c r = record r {
  name = or_kept c.name r.name;
  permissions = texts c.permissions r.permissions;
  default_landing = or_kept c.default_landing r.default_landing;
}

unfoldable pub update_at : String → RoleUpdate → List Role → List Role
update_at id c [] = []
update_at id c (r ∷ rs) = if r.id == id then updated c r ∷ rs else r ∷ update_at id c rs

-- The landing to write: the one asked for, or the old one where the permissions change.
unfoldable pub new_landing : UpdateRoleRequest → Role → List Permission → Option String
unfolding clamp_landing
new_landing dto existing permissions = elim dto.default_landing [
  | some landing ↦ some (clamp_landing (some landing) permissions)
  | none ↦
      if is_some dto.permissions
      then some (clamp_landing (some existing.default_landing) permissions)
      else none
]

-- `update` once the permissions and the name have been checked.
unfoldable pub write_role : String → RoleUpdate → Store → Result CustomRole × Store
unfolding update_at find_by_id to_custom_role
write_role id fields st =
    let st' : Store = record st { roles = update_at id fields st.roles } in
    elim (find_by_id id st'.roles) [
      | none ↦ (throws internal, st)
      | some r ↦ (ok (to_custom_role st' r), st')
    ]

-- The new permissions, if any were asked for: an empty list is refused.
unfoldable pub picked : Option (List String) → Result (Option (List Permission))
unfolding sanitize_permissions
picked none = ok none
picked (some values) =
    let permissions = sanitize_permissions values in
    if none_picked permissions
    then throws (bad_request "Pick at least one permission")
    else ok (some permissions)

unfoldable pub renamed : Option String → Result (Option String)
unfolding trim
renamed none = ok none
renamed (some name) =
    if is_empty (trim name)
    then throws (bad_request "Role name is required")
    else ok (some (trim name))

abbrev pub effective : Option (List Permission) → List Permission → List Permission
effective none ps = ps
effective (some qs) ps = qs

unfoldable pub update_checked :
    String
    → UpdateRoleRequest
    → Role
    → Result (Option (List Permission))
    → Result (Option String)
    → Store
    → Result CustomRole × Store
unfolding new_landing write_role to_permissions
update_checked id dto existing (throws e) name st = (throws e, st)
update_checked id dto existing (ok permissions) (throws e) st = (throws e, st)
update_checked id dto existing (ok permissions) (ok name) st =
    write_role id
      (record {
        name = name;
        permissions = permissions;
        default_landing =
            new_landing dto existing (effective permissions (to_permissions existing.permissions));
      })
      st

unfoldable pub update : String → UpdateRoleRequest → Store → Result CustomRole × Store
unfolding find_by_id picked renamed update_checked
update id dto st = elim (find_by_id id st.roles) [
  | none ↦ (throws (not_found "Role not found"), st)
  | some existing ↦ update_checked id dto existing (picked dto.permissions) (renamed dto.name) st
]

unfoldable pub delete_at : String → List Role → List Role
delete_at id [] = []
delete_at id (r ∷ rs) = if r.id == id then rs else r ∷ delete_at id rs

-- `onDelete: SetNull` of the schema.
unfoldable pub set_null : String → List (String × Option String) → List (String × Option String)
set_null id [] = []
set_null id ((user_id, role) ∷ ms) =
    (user_id, if is_text role id then none else role) ∷ set_null id ms

unfoldable pub remove : String → Store → Result (Unit {0}) × Store
unfolding find_by_id delete_at set_null
remove id st = elim (find_by_id id st.roles) [
  | none ↦ (throws (not_found "Role not found"), st)
  | some r ↦ (ok tt, record { roles = delete_at id st.roles; members = set_null id st.members })
]
