-- ===== src/Users/Deletion.antt =====
-- When `deleteUser` of apps/api/src/modules/users/users.service.ts deletes, and what it has checked
-- by then.
use mathlib.Core.Option.{map as map_option}
use vertxing.Prelude.{
  String, ◌≡◌, refl, Bool, true, false, Option, none, some, ◌⊎◌, inl, inr, Bool-cases, leb, ◌==◌,
  arith, ◌∙◌, sym, ap,
}
use vertxing.Http.{bad_request, forbidden, not_found, ok}
use vertxing.Database.Tables.{Tables, query, User, user_by_id, delete_at, super_admins, join}
use vertxing.Database.Query.{Db, ret, run, ◌>>=◌}
use vertxing.Database.Laws.{run-throws, run-ok}
use vertxing.Users.Service.{to_user_role, is_super_admin, find_by_id, delete, count_super_admins}
use vertxing.Users.Manage.{
  assert_roles, assert_actor_may_manage, guard_last_deletion, delete_loaded, delete_user,
}
use vertxing.Users.Authority.{Authorised, Refused, assert_roles-cases}

guard_deletion-cases :
    (b : Bool) (t : Tables)
    → Refused (guard_last_deletion b) t
      ⊎ ((run (guard_last_deletion b) t ≡ (ok tt, t))
          × (b ≡ true → leb (super_admins t.users) 1 ≡ false))
unfolding guard_last_deletion count_super_admins query
guard_deletion-cases false t = inr (refl, λ e. cc)
guard_deletion-cases true t = elim (Bool-cases (leb (super_admins t.users) 1)) [
  | inl e ↦ inl (bad_request "Cannot delete the last super-admin", ground arith)
  | inr e ↦ inr (ground arith, λ _. e)
]

-- A deletion, with what it has checked.
pub record Deleted (actor target : Option User) (b : String) (t t' : Tables) : Type 0 where
  pub actor_row : User
  pub target_row : User
  pub is_actor : actor ≡ some actor_row
  pub is_target : target ≡ some target_row
  pub authorised :
      Authorised
        (to_user_role actor_row.role)
        (to_user_role target_row.role)
        none
        (super_admins t.users)
  pub spare :
      is_super_admin (to_user_role target_row.role) ≡ true → leb (super_admins t.users) 1 ≡ false
  pub after : t'.users ≡ delete_at b t.users

delete_rest : String → Unit {0} → Db (Unit {0})
unfolding delete
delete_rest b _ = delete b >>= λ _. ret tt

guarded : String → User → Unit {0} → Db (Unit {0})
unfolding guard_last_deletion delete_rest to_user_role
guarded b u _ = guard_last_deletion (is_super_admin (to_user_role u.role)) >>= delete_rest b

delete-run :
    (b : String) (t : Tables) (u : User)
    → user_by_id b t.users ≡ some u
    → run (delete_rest b tt) t ≡ (ok tt, record t { users = delete_at b t.users })
unfolding delete_rest delete query
delete-run b t u h = ground arith

delete_loaded-cases :
    (b : String) (t : Tables) (actor target : Option User)
    → target ≡ user_by_id b t.users
    → Refused
        (delete_loaded b (map_option (join t.roles) actor) (map_option (join t.roles) target))
        t
      ⊎ Deleted actor target b t
          (run
            (delete_loaded b (map_option (join t.roles) actor) (map_option (join t.roles) target))
            t).1
unfolding delete_loaded assert_actor_may_manage guarded delete_rest
delete_loaded-cases b t none target h = inl (forbidden "Authentication required", refl)
delete_loaded-cases b t (some a) none h = inl (not_found "User not found", refl)
delete_loaded-cases b t (some a) (some u) h =
    let m = assert_roles (to_user_role a.role) (to_user_role u.role) none in
    let s = is_super_admin (to_user_role u.role) in
    elim (assert_roles-cases (to_user_role a.role) (to_user_role u.role) none t) [
      | inl (e, p) ↦ inl (e, run-throws m (guarded b u) t t e p)
      | inr (p, auth) ↦ elim (guard_deletion-cases s t) [
        | inl (e, q) ↦ inl (
          e,
          run-ok m (guarded b u) t t tt p
              ∙ run-throws (guard_last_deletion s) (delete_rest b) t t e q,
        )
        | inr (q, l) ↦ inr record {
          actor_row = a;
          target_row = u;
          is_actor = refl;
          is_target = refl;
          authorised = auth;
          spare = l;
          after =
              ap (λ r. r.1.users)
                (run-ok m (guarded b u) t t tt p
                  ∙ run-ok (guard_last_deletion s) (delete_rest b) t t tt q
                  ∙ delete-run b t u (sym h));
        }
      ]
    ]

-- `deleteUser` either throws and changes nothing, or it deletes the target's row, which is not the
-- actor's, and the management hierarchy allowed it.
pub delete_user-cases :
    (a b : String) (t : Tables)
    → Refused (delete_user a b) t
      ⊎ (((a == b) ≡ false)
          × Deleted (user_by_id a t.users) (user_by_id b t.users) b t (run (delete_user a b) t).1)
unfolding delete_user find_by_id query
delete_user-cases a b t = elim (Bool-cases (a == b)) [
  | inl e ↦ inl (bad_request "You can’t delete your own account", rw e refl)
  | inr e ↦
      rw e (elim (delete_loaded-cases b t (user_by_id a t.users) (user_by_id b t.users) refl) [
        | inl r ↦ inl r
        | inr d ↦ inr (refl, d)
      ])
]
