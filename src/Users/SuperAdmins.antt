-- ===== src/Users/SuperAdmins.antt =====
-- What no sequence of account operations can break: users.service.ts, under
-- apps/api/src/modules/users.
use mathlib.Core.Path.{subst}
use vertxing.Prelude.{
  ◌≤◌, String, ◌≡◌, refl, Bool, true, Option, none, some, List, [], ◌∷◌, ◌⊎◌, inl, inr, Bool-cases,
  arith, ◌∙◌, sym,
}
use vertxing.Permission.{UserRole, user, admin, super_admin}
use vertxing.Database.Tables.{
  Tables, DbRole, db_user, db_admin, db_super_admin, or_kept, user_by_id, super_admins,
  is_db_super_admin,
}
use vertxing.Database.Query.{Db, run}
use vertxing.Database.Laws.{super_admins-update_at, super_admins-delete_at}
use vertxing.Users.Service.{to_user_role, to_prisma_user_role, is_super_admin}
use vertxing.Users.Manage.{
  RoleChoice, undefined, null, assign, UpdateUserRequest, effective_new_role, demotes, role_update,
  update_user, delete_user,
}
use vertxing.Users.Authority.{Refused, Wrote, written, update_user-cases}
use vertxing.Users.Deletion.{Deleted, delete_user-cases}

-- A request to manage an account.
pub data Request : Type 0 where
  updates : (actor target : String) → UpdateUserRequest → Request
  deletes : (actor target : String) → Request

-- The tables after the request.
unfoldable pub manage : Request → Tables → Tables
manage (updates a b changes) t = (run (update_user a b changes) t).1
manage (deletes a b) t = (run (delete_user a b) t).1

unfoldable pub manage_all : List Request → Tables → Tables
manage_all [] t = t
manage_all (r ∷ rs) t = manage_all rs (manage r t)

pub is_super_admin-to_user_role :
    (d : DbRole) → is_super_admin (to_user_role d) ≡ is_db_super_admin d
unfolding to_user_role
is_super_admin-to_user_role db_user = refl
is_super_admin-to_user_role db_admin = refl
is_super_admin-to_user_role db_super_admin = refl

-- A row stays a super-admin's, or the hierarchy took the request for a demotion.
pub keeps_or_demotes :
    (c : RoleChoice) (o : Option UserRole) (b : Option Bool) (d : DbRole)
    → is_db_super_admin d ≡ true
    → (is_db_super_admin
          (or_kept (written (record { role = o; custom_role_id = c; calls_enabled = b })).role d)
        ≡ true)
      ⊎ (demotes (effective_new_role (record { role = o; custom_role_id = c; calls_enabled = b }))
          ≡ true)
unfolding written effective_new_role role_update to_prisma_user_role
keeps_or_demotes undefined none b d h = inl h
keeps_or_demotes undefined (some user) b d h = inr refl
keeps_or_demotes undefined (some admin) b d h = inr refl
keeps_or_demotes undefined (some super_admin) b d h = inl refl
keeps_or_demotes null o b d h = inl h
keeps_or_demotes (assign r) o b d h = inr refl

Wrote-keeps_one :
    (a b : String) (changes : UpdateUserRequest) (t t' : Tables)
    → Wrote (user_by_id a t.users) (user_by_id b t.users) b changes t t'
    → 1 ≤ super_admins t.users
    → 1 ≤ super_admins t'.users
Wrote-keeps_one a b changes t t' w h =
    let u = w.target_row in
    let c = written changes in
    let tally = super_admins-update_at b c t.users u w.is_target in
    elim (Bool-cases (is_db_super_admin u.role)) [
      | inr e ↦ ground (arith, tally, w.after)
      | inl e ↦
          elim (keeps_or_demotes changes.custom_role_id changes.role changes.calls_enabled u.role
            e) [
              | inl k ↦ ground (arith, tally, w.after)
              | inr k ↦
                  let l = w.authorised.last (ground (arith, is_super_admin-to_user_role u.role)) in
                  ground (arith, tally, w.after)
            ]
    ]

Deleted-keeps_one :
    (a b : String) (t t' : Tables)
    → Deleted (user_by_id a t.users) (user_by_id b t.users) b t t'
    → 1 ≤ super_admins t.users
    → 1 ≤ super_admins t'.users
Deleted-keeps_one a b t t' w h =
    let u = w.target_row in
    let tally = super_admins-delete_at b t.users u w.is_target in
    elim (Bool-cases (is_db_super_admin u.role)) [
      | inr e ↦ ground (arith, tally, w.after)
      | inl e ↦
          let l = w.spare (is_super_admin-to_user_role u.role ∙ e) in ground (arith, tally, w.after)
    ]

-- What holds of the tables holds after a request that is refused.
pub Refused-keeps {ℓ κ} :
    {A : Type ℓ} (P : Tables → Type κ) (m : Db A) (t : Tables) → Refused m t → P t → P (run m t).1
Refused-keeps P m t (e, p) h = subst (λ r. P r.1) (sym p) h

manage-keeps_one :
    (r : Request) (t : Tables) → 1 ≤ super_admins t.users → 1 ≤ super_admins (manage r t).users
unfolding manage
manage-keeps_one (updates a b changes) t h = elim (update_user-cases a b changes t) [
  | inl r ↦ Refused-keeps (λ t. 1 ≤ super_admins t.users) (update_user a b changes) t r h
  | inr (x, w) ↦ Wrote-keeps_one a b changes t _ w h
]
manage-keeps_one (deletes a b) t h = elim (delete_user-cases a b t) [
  | inl r ↦ Refused-keeps (λ t. 1 ≤ super_admins t.users) (delete_user a b) t r h
  | inr (n, w) ↦ Deleted-keeps_one a b t _ w h
]

-- Where there is a super-admin, there is one after any requests to update or delete accounts, by
-- any actors, each served before the next.
pub super_admin_remains :
    (rs : List Request) (t : Tables)
    → 1 ≤ super_admins t.users
    → 1 ≤ super_admins (manage_all rs t).users
unfolding manage_all
super_admin_remains [] t h = h
super_admin_remains (r ∷ rs) t h = super_admin_remains rs (manage r t) (manage-keeps_one r t h)
