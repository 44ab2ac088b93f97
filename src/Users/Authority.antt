-- ===== src/Users/Authority.antt =====
-- When `updateUser` and `deleteUser` of apps/api/src/modules/users/users.service.ts write, and what
-- they have checked by then.
use mathlib.Core.Option.{map as map_option}
use vertxing.Prelude.{
  eq_refl, ℕ, String, ◌≡◌, refl, Bool, true, false, not, ◌&&◌, Option, none, some, ◌⊎◌, inl, inr,
  Bool-cases, leb, ltb, arith, ◌∙◌, sym, ap, is_some,
}
use vertxing.Http.{HttpError, bad_request, forbidden, not_found, ok, throws, internal}
use vertxing.Permission.{UserRole}
use vertxing.Database.Tables.{
  Tables, query, db_user, User, UserWithRole, UserUpdate, no_update, user_by_id, role_by_id,
  update_at, updated, connectable, super_admins, join, disconnect, connect,
}
use vertxing.Database.Query.{Db, ret, run, ◌>>=◌}
use vertxing.Database.Laws.{run-throws, run-ok, user_by_id-update_at}
use vertxing.Users.Service.{
  to_user_role, to_prisma_user_role, is_super_admin, find_by_id, update, count_super_admins,
  role_exists,
}
use vertxing.Users.Manage.{
  tier, RoleChoice, undefined, null, assign, UpdateUserRequest, AdminUser, to_admin_user,
  effective_new_role, grants_super, demotes, guard_last_super_admin, assert_roles,
  assert_actor_may_manage, role_update, assignment, update_loaded, update_user,
}

-- The management hierarchy, of the roles of the actor and of the target, the role to assign and the
-- number of super-admins.
pub record Authorised (actor target : UserRole) (new_role : Option UserRole) (n : ℕ) : Type 0 where
  pub rank : ltb (tier actor) (tier target) ≡ false
  pub grants : (grants_super new_role && not (is_super_admin actor)) ≡ false
  pub last : (is_super_admin target && demotes new_role) ≡ true → leb n 1 ≡ false

guard_last-cases :
    (b : Bool) (t : Tables)
    → ((e : HttpError) × (run (guard_last_super_admin b) t ≡ (throws e, t)))
      ⊎ ((run (guard_last_super_admin b) t ≡ (ok tt, t))
          × (b ≡ true → leb (super_admins t.users) 1 ≡ false))
unfolding guard_last_super_admin count_super_admins query
guard_last-cases false t = inr (refl, λ e. cc)
guard_last-cases true t = elim (Bool-cases (leb (super_admins t.users) 1)) [
  | inl e ↦ inl (bad_request "Cannot remove the last super-admin", ground arith)
  | inr e ↦ inr (ground arith, λ _. e)
]

pub assert_roles-cases :
    (a r : UserRole) (n : Option UserRole) (t : Tables)
    → ((e : HttpError) × (run (assert_roles a r n) t ≡ (throws e, t)))
      ⊎ ((run (assert_roles a r n) t ≡ (ok tt, t)) × Authorised a r n (super_admins t.users))
unfolding assert_roles
assert_roles-cases a r n t = elim (Bool-cases (ltb (tier a) (tier r))) [
  | inl e ↦ inl (forbidden "You can’t manage someone with a higher role", rw e refl)
  | inr e ↦ elim (Bool-cases (grants_super n && not (is_super_admin a))) [
    | inl g ↦ inl (forbidden "Only a super-admin can grant super-admin", rw (e, g) refl)
    | inr g ↦ elim (guard_last-cases (is_super_admin r && demotes n) t) [
      | inl (x, h) ↦ inl (x, rw (e, g) h)
      | inr (h, l) ↦ inr (rw (e, g) h, record { rank = e; grants = g; last = l })
    ]
  ]
]

-- The update that a request writes, by cases on the role it names.
unfoldable pub written : UpdateUserRequest → UserUpdate
unfolding role_update to_prisma_user_role
written changes = elim changes.custom_role_id [
  | undefined ↦
      role_update changes.role (record no_update { calls_enabled = changes.calls_enabled })
  | null ↦ record no_update { calls_enabled = changes.calls_enabled; custom_role = disconnect }
  | assign r ↦ record no_update {
    calls_enabled = changes.calls_enabled;
    role = some db_user;
    custom_role = connect r;
  }
]

pub assignment-cases :
    (c : RoleChoice) (o : Option UserRole) (b : Option Bool) (t : Tables)
    → ((e : HttpError) × (run (assignment c o (record no_update { calls_enabled = b })) t
          ≡ (throws e, t)))
      ⊎ (run (assignment c o (record no_update { calls_enabled = b })) t
          ≡ (ok (written (record { role = o; custom_role_id = c; calls_enabled = b })), t))
unfolding assignment written role_exists query to_prisma_user_role role_update
assignment-cases undefined o b t = inr refl
assignment-cases null o b t = inr refl
assignment-cases (assign r) o b t = elim (Bool-cases (is_some (role_by_id r t.roles))) [
  | inl e ↦ inr (ground arith)
  | inr e ↦ inl (not_found "Role not found", ground arith)
]

-- A request that is refused leaves the tables as they are.
abbrev pub Refused {ℓ} : {A : Type ℓ} → Db A → Tables → Type ℓ
Refused m t = (e : HttpError) × (run m t ≡ (throws e, t))

-- A request that writes, with what it has checked.
pub record Wrote (actor target : Option User) (b : String) (changes : UpdateUserRequest)
    (t t' : Tables) : Type 0 where
  pub actor_row : User
  pub target_row : User
  pub is_actor : actor ≡ some actor_row
  pub is_target : target ≡ some target_row
  pub authorised :
      Authorised
        (to_user_role actor_row.role)
        (to_user_role target_row.role)
        (effective_new_role changes)
        (super_admins t.users)
  pub after : t'.users ≡ update_at b (written changes) t.users

update-cases :
    (b : String) (c : UserUpdate) (t : Tables) (u : User)
    → user_by_id b t.users ≡ some u
    → Refused (update b c) t
      ⊎ (run (update b c) t
          ≡ (ok (join t.roles (updated c u)), record t { users = update_at b c t.users }))
unfolding update query
update-cases b c t u h = elim (Bool-cases (connectable c.custom_role t.roles)) [
  | inl e ↦ inr (ground (arith, user_by_id-update_at b b c t.users, eq_refl b))
  | inr e ↦ inl (internal, ground arith)
]

-- What follows the checks: the update, if the role that it assigns exists.
abbrev fields_of : UpdateUserRequest → Db UserUpdate
unfolding assignment
fields_of changes =
    assignment changes.custom_role_id changes.role
      (record no_update { calls_enabled = changes.calls_enabled })

abbrev shown : UserWithRole → Db AdminUser
unfolding to_admin_user
shown changed = ret (to_admin_user changed)

abbrev write_fields : String → UserUpdate → Db AdminUser
unfolding update
write_fields b fields = update b fields >>= shown

abbrev write_rest : String → UpdateUserRequest → Db AdminUser
write_rest b changes = fields_of changes >>= write_fields b

write_rest-cases :
    (b : String) (changes : UpdateUserRequest) (t : Tables) (u : User)
    → user_by_id b t.users ≡ some u
    → Refused (write_rest b changes) t
      ⊎ ((x : AdminUser) × (run (write_rest b changes) t
            ≡ (ok x, record t { users = update_at b (written changes) t.users })))
unfolding fields_of assignment write_fields shown
write_rest-cases b changes t u h =
    let c = written changes in
    let f = fields_of changes in
    let x = join t.roles (updated c u) in
    elim (assignment-cases changes.custom_role_id changes.role changes.calls_enabled t) [
      | inl (e, p) ↦ inl (e, run-throws f (write_fields b) t t e p)
      | inr p ↦ elim (update-cases b c t u h) [
        | inl (e, q) ↦
            inl (e, run-ok f (write_fields b) t t c p ∙ run-throws (update b c) shown t t e q)
        | inr q ↦ inr (
          to_admin_user x,
          run-ok f (write_fields b) t t c p
              ∙ run-ok (update b c) shown t (record t { users = update_at b c t.users }) x q,
        )
      ]
    ]

update_loaded-cases :
    (b : String) (changes : UpdateUserRequest) (t : Tables) (actor target : Option User)
    → target ≡ user_by_id b t.users
    → Refused
        (update_loaded b changes
          (map_option (join t.roles) actor)
          (map_option (join t.roles) target))
        t
      ⊎ (((x : AdminUser) × ((run
                (update_loaded b changes
                  (map_option (join t.roles) actor)
                  (map_option (join t.roles) target))
                t).0
              ≡ ok x))
          × Wrote actor target b changes t
              (run
                (update_loaded b changes
                  (map_option (join t.roles) actor)
                  (map_option (join t.roles) target))
                t).1)
unfolding update_loaded assert_actor_may_manage shown
update_loaded-cases b changes t none target h = inl (forbidden "Authentication required", refl)
update_loaded-cases b changes t (some a) none h = inl (not_found "User not found", refl)
update_loaded-cases b changes t (some a) (some u) h =
    let n = effective_new_role changes in
    let m = assert_roles (to_user_role a.role) (to_user_role u.role) n in
    let f : Unit {0} → Db AdminUser = λ _. write_rest b changes in
    elim (assert_roles-cases (to_user_role a.role) (to_user_role u.role) n t) [
      | inl (e, p) ↦ inl (e, run-throws m f t t e p)
      | inr (p, auth) ↦ elim (write_rest-cases b changes t u (sym h)) [
        | inl (e, q) ↦ inl (e, run-ok m f t t tt p ∙ q)
        | inr (x, q) ↦
            let all = run-ok m f t t tt p ∙ q in
            inr (
              (x, ap (λ r. r.0) all),
              record {
                actor_row = a;
                target_row = u;
                is_actor = refl;
                is_target = refl;
                authorised = auth;
                after = ap (λ r. r.1.users) all;
              },
            )
      ]
    ]

-- `updateUser` either throws and changes nothing, or it returns, the target's row has the fields of
-- the request, and the management hierarchy allowed it.
pub update_user-cases :
    (a b : String) (changes : UpdateUserRequest) (t : Tables)
    → Refused (update_user a b changes) t
      ⊎ (((x : AdminUser) × ((run (update_user a b changes) t).0 ≡ ok x))
          × Wrote
              (user_by_id a t.users)
              (user_by_id b t.users)
              b
              changes
              t
              (run (update_user a b changes) t).1)
unfolding update_user find_by_id query
update_user-cases a b changes t =
    update_loaded-cases b changes t (user_by_id a t.users) (user_by_id b t.users) refl
