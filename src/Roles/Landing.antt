-- ===== src/Roles/Landing.antt =====
-- The table of roles stays sound: roles.service.ts, under apps/api/src/modules/roles.
use vertxing.Prelude.{
  ℕ, String, ◌≡◌, ◌∙◌, refl, sym, ap, Bool, true, false, ◌&&◌, ◌⊎◌, Option, none, some, List, [],
  ◌∷◌, ◌++◌, map, arith, is_some, Option-cases, Bool-cases, inl, inr,
}
use vertxing.Prelude.Ascii.{trim}
use vertxing.Http.{Result, ok, throws}
use vertxing.Permission.{Permission, permission_text, to_permissions}
use vertxing.Permission.Laws.{to_permissions-text}
use vertxing.Roles.{clamp_landing, sanitize_permissions}
use vertxing.Roles.Store.{
  or_kept, Role, Store, CreateRoleRequest, UpdateRoleRequest, RoleUpdate, updated, find_by_id,
  update_at, delete_at, unique_key, add_role, create, effective, new_landing, write_role, picked,
  renamed, update_checked, update, remove,
}
use vertxing.Roles.Pages.{opens, clamp_landing-lands}

-- A role's members land on a page that is there and that the permissions of the role open.
unfoldable pub lands : Role → Bool
lands r = opens (to_permissions r.permissions) r.default_landing

unfoldable pub all_land : List Role → Bool
all_land [] = true
all_land (r ∷ rs) = lands r && all_land rs

all_land-append :
    (rs : List Role) (r : Role)
    → all_land rs ≡ true
    → lands r ≡ true
    → all_land (rs ++ (r ∷ [])) ≡ true
unfolding all_land
all_land-append [] r h k = ground arith
all_land-append (s ∷ rs) r h k = ground (arith, all_land-append rs r)

all_land-update_at :
    (id : String) (c : RoleUpdate) (rs : List Role) (r : Role)
    → find_by_id id rs ≡ some r
    → all_land rs ≡ true
    → (lands r ≡ true → lands (updated c r) ≡ true)
    → all_land (update_at id c rs) ≡ true
unfolding all_land find_by_id update_at
all_land-update_at id c [] r h k l = absurd (cc h)
all_land-update_at id c (s ∷ rs) r h k l = ground (arith, all_land-update_at id c rs r)

all_land-delete_at :
    (id : String) (rs : List Role) → all_land rs ≡ true → all_land (delete_at id rs) ≡ true
unfolding all_land delete_at
all_land-delete_at id [] h = refl
all_land-delete_at id (r ∷ rs) h = ground (arith, all_land-delete_at id rs)

new_landing-cases :
    (dto : UpdateRoleRequest) (r : Role) (ps : List Permission)
    → ((new_landing dto r ps ≡ none) × (is_some dto.permissions ≡ false))
      ⊎ ((l : Option String) × (new_landing dto r ps ≡ some (clamp_landing l ps)))
unfolding new_landing
new_landing-cases dto r ps = elim (Option-cases dto.default_landing) [
  | inr (l, e) ↦ inr (some l, ground (arith, e))
  | inl e ↦ elim (Bool-cases (is_some dto.permissions)) [
    | inl k ↦ inr (some r.default_landing, ground (arith, e, k))
    | inr k ↦ inl (ground (arith, e, k), k)
  ]
]

lands-updated :
    (dto : UpdateRoleRequest) (r : Role) (ps : Option (List Permission)) (name : Option String)
    → is_some ps ≡ is_some dto.permissions
    → lands r ≡ true
    → lands (
        updated
          (record {
            name = name;
            permissions = ps;
            default_landing = new_landing dto r (effective ps (to_permissions r.permissions));
          })
          r)
      ≡ true
unfolding lands
lands-updated dto r none name h l = elim (new_landing-cases dto r (to_permissions r.permissions)) [
  | inl (e, k) ↦ ap (λ o. opens (to_permissions r.permissions) (or_kept o r.default_landing)) e ∙ l
  | inr (o, e) ↦
      ap (λ o. opens (to_permissions r.permissions) (or_kept o r.default_landing)) e
      ∙ clamp_landing-lands o (to_permissions r.permissions)
]
lands-updated dto r (some ps) name h l = elim (new_landing-cases dto r ps) [
  | inl (e, k) ↦ absurd (cc (h, k))
  | inr (o, e) ↦
      ap (λ qs. opens qs (or_kept (new_landing dto r ps) r.default_landing))
        (to_permissions-text ps)
      ∙ ap (λ o. opens ps (or_kept o r.default_landing)) e
      ∙ clamp_landing-lands o ps
]

picked-is_some :
    (values : Option (List String)) (ps : Option (List Permission))
    → picked values ≡ ok ps
    → is_some ps ≡ is_some values
unfolding picked
picked-is_some none ps h = ground arith
picked-is_some (some vs) ps h = ground arith

-- A request to change the table.
pub data RoleRequest : Type 0 where
  creates : (id : String) (now : ℕ) → CreateRoleRequest → RoleRequest
  changes : (id : String) → UpdateRoleRequest → RoleRequest
  removes : (id : String) → RoleRequest

unfoldable pub manage_role : RoleRequest → Store → Store
manage_role (creates id now dto) st = (create id now dto st).1
manage_role (changes id dto) st = (update id dto st).1
manage_role (removes id) st = (remove id st).1

unfoldable pub manage_roles : List RoleRequest → Store → Store
manage_roles [] st = st
manage_roles (r ∷ rs) st = manage_roles rs (manage_role r st)

new_role-lands :
    (id : String) (now : ℕ) (name : String) (ps : List Permission) (landing : Option String)
    (key : String)
    → lands (record {
      id = id;
      name = name;
      key = key;
      permissions = map permission_text ps;
      default_landing = clamp_landing landing ps;
      created_at = now;
    })
      ≡ true
unfolding lands
new_role-lands id now name ps landing key =
    ap (λ qs. opens qs (clamp_landing landing ps)) (to_permissions-text ps)
    ∙ clamp_landing-lands landing ps

add_role-lands :
    (id : String) (now : ℕ) (name : String) (ps : List Permission) (landing : Option String)
    (key : Option String) (st : Store)
    → all_land st.roles ≡ true
    → all_land (add_role id now name ps (clamp_landing landing ps) key st).1.roles ≡ true
unfolding add_role
add_role-lands id now name ps landing none st h = h
add_role-lands id now name ps landing (some key) st h =
    all_land-append st.roles _ h (new_role-lands id now name ps landing key)

create-lands :
    (id : String) (now : ℕ) (dto : CreateRoleRequest) (st : Store)
    → all_land st.roles ≡ true
    → all_land (create id now dto st).1.roles ≡ true
unfolding create
create-lands id now dto st h =
    let ps = sanitize_permissions dto.permissions in
    ground (
      arith,
      add_role-lands id now (trim dto.name) ps dto.default_landing
          (unique_key (trim dto.name) st.roles) st h,
    )

write_role-lands :
    (id : String) (fields : RoleUpdate) (st : Store) (r : Role)
    → find_by_id id st.roles ≡ some r
    → all_land st.roles ≡ true
    → (lands r ≡ true → lands (updated fields r) ≡ true)
    → all_land (write_role id fields st).1.roles ≡ true
unfolding write_role
write_role-lands id fields st r h k l =
    ground (arith, all_land-update_at id fields st.roles r h k l)

checked-lands :
    (id : String) (dto : UpdateRoleRequest) (r : Role) (x : Result (Option (List Permission)))
    (y : Result (Option String)) (st : Store)
    → x ≡ picked dto.permissions
    → find_by_id id st.roles ≡ some r
    → all_land st.roles ≡ true
    → all_land (update_checked id dto r x y st).1.roles ≡ true
unfolding update_checked
checked-lands id dto r (throws e) y st p h k = k
checked-lands id dto r (ok ps) (throws e) st p h k = k
checked-lands id dto r (ok ps) (ok name) st p h k =
    write_role-lands id
      (record {
        name = name;
        permissions = ps;
        default_landing = new_landing dto r (effective ps (to_permissions r.permissions));
      })
      st r h k (lands-updated dto r ps name (picked-is_some dto.permissions ps (sym p)))

update-lands :
    (id : String) (dto : UpdateRoleRequest) (st : Store)
    → all_land st.roles ≡ true
    → all_land (update id dto st).1.roles ≡ true
unfolding update
update-lands id dto st h = elim (Option-cases (find_by_id id st.roles)) [
  | inl e ↦ ground (arith, e)
  | inr (r, e) ↦
      ground
        (arith, e, checked-lands id dto r (picked dto.permissions) (renamed dto.name) st refl e h)
]

remove-lands :
    (id : String) (st : Store) → all_land st.roles ≡ true → all_land (remove id st).1.roles ≡ true
unfolding remove
remove-lands id st h = ground (arith, all_land-delete_at id st.roles h)

-- Whatever roles are created, changed and removed, the landing page of every role is a page of the
-- app that its permissions open: Home, Meetings and Settings are open to all, Contacts and Calls need
-- calls.start, and the two administration pages need users.manage. It is supposed of the table to
-- begin with.
pub manage_roles-all_land :
    (rs : List RoleRequest) (st : Store)
    → all_land st.roles ≡ true
    → all_land (manage_roles rs st).roles ≡ true
unfolding manage_roles manage_role
manage_roles-all_land [] st h = h
manage_roles-all_land (creates id now dto ∷ rs) st h =
    manage_roles-all_land rs _ (create-lands id now dto st h)
manage_roles-all_land (changes id dto ∷ rs) st h =
    manage_roles-all_land rs _ (update-lands id dto st h)
manage_roles-all_land (removes id ∷ rs) st h = manage_roles-all_land rs _ (remove-lands id st h)
