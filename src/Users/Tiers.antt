-- ===== src/Users/Tiers.antt =====
-- The tiers of accounts under updateUser and deleteUser: users.service.ts, under
-- apps/api/src/modules/users.
use mathlib.Core.Path.{subst}
use mathlib.Core.Option.{map as map_option}
use vertxing.Prelude.{
  ℕ, String, ◌≡◌, refl, Bool, true, false, not, ◌&&◌, ◌||◌, Option, none, some, List, [], ◌∷◌, inl,
  inr, Bool-cases, ltb, ◌==◌, arith, ◌∙◌, sym, ap, is_some, eq_iff, eq_refl,
}
use vertxing.Permission.{UserRole, user, admin, super_admin}
use vertxing.Database.Tables.{
  Tables, DbRole, db_user, db_admin, User, updated, or_kept, user_by_id, update_at, delete_at,
  is_db_super_admin, disconnect, query, join, no_update,
}
use vertxing.Database.Query.{run}
use vertxing.Database.Laws.{user_by_id-update_at, user_by_id-delete_at}
use vertxing.Users.Service.{to_user_role, to_prisma_user_role, is_super_admin, find_by_id, update}
use vertxing.Users.Manage.{
  tier, RoleChoice, undefined, null, assign, UpdateUserRequest, effective_new_role, grants_super,
  role_update, update_user, delete_user, update_loaded, assert_actor_may_manage, assert_roles,
  guard_last_super_admin, assignment,
}
use vertxing.Users.Authority.{Authorised, written, update_user-cases}
use vertxing.Users.Deletion.{delete_user-cases}
use vertxing.Users.SuperAdmins.{
  Request, updates, deletes, manage, manage_all, is_super_admin-to_user_role, Refused-keeps,
}

abbrev is_db_user : DbRole → Bool
is_db_user db_user = true
is_db_user _ = false

-- A row with a custom role is at the tier USER.
abbrev at_base : User → Bool
at_base u = not (is_some u.custom_role_id) || is_db_user u.role

unfoldable pub all_at_base : List User → Bool
all_at_base [] = true
all_at_base (u ∷ us) = at_base u && all_at_base us

updated-at_base :
    (c : RoleChoice) (o : Option UserRole) (b : Option Bool) (u : User)
    → at_base u ≡ true
    → at_base (updated (written (record { role = o; custom_role_id = c; calls_enabled = b })) u)
      ≡ true
unfolding written role_update
updated-at_base undefined none b u h = h
updated-at_base undefined (some r) b u h = refl
updated-at_base null o b u h = refl
updated-at_base (assign r) o b u h = refl

update_at-all_at_base :
    (i : String) (changes : UpdateUserRequest) (us : List User)
    → all_at_base us ≡ true
    → all_at_base (update_at i (written changes) us) ≡ true
unfolding update_at all_at_base
update_at-all_at_base i changes [] h = refl
update_at-all_at_base i changes (u ∷ us) h = ground (
  arith,
  update_at-all_at_base i changes us,
  updated-at_base changes.custom_role_id changes.role changes.calls_enabled u,
)

delete_at-all_at_base :
    (i : String) (us : List User) → all_at_base us ≡ true → all_at_base (delete_at i us) ≡ true
unfolding delete_at all_at_base
delete_at-all_at_base i [] h = refl
delete_at-all_at_base i (u ∷ us) h = ground (arith, delete_at-all_at_base i us)

manage-at_base :
    (r : Request) (t : Tables) → all_at_base t.users ≡ true → all_at_base (manage r t).users ≡ true
unfolding manage
manage-at_base (updates a b changes) t h = elim (update_user-cases a b changes t) [
  | inl r ↦ Refused-keeps (λ t. all_at_base t.users ≡ true) (update_user a b changes) t r h
  | inr (x, w) ↦ ap all_at_base w.after ∙ update_at-all_at_base b changes t.users h
]
manage-at_base (deletes a b) t h = elim (delete_user-cases a b t) [
  | inl r ↦ Refused-keeps (λ t. all_at_base t.users ≡ true) (delete_user a b) t r h
  | inr (n, w) ↦ ap all_at_base w.after ∙ delete_at-all_at_base b t.users h
]

-- Where every account with a custom role is at the tier USER, it is so after any requests to update
-- or delete accounts.
pub custom_role_at_base :
    (rs : List Request) (t : Tables)
    → all_at_base t.users ≡ true
    → all_at_base (manage_all rs t).users ≡ true
unfolding manage_all
custom_role_at_base [] t h = h
custom_role_at_base (r ∷ rs) t h = custom_role_at_base rs (manage r t) (manage-at_base r t h)

tier_top : (r : UserRole) → ltb (tier r) 3 ≡ false → is_super_admin r ≡ true
tier_top user h = ground arith
tier_top admin h = ground arith
tier_top super_admin h = refl

tier_super : (r : UserRole) → is_super_admin r ≡ true → tier r ≡ 3
tier_super user h = ground arith
tier_super admin h = ground arith
tier_super super_admin h = refl

-- Who may touch a super-admin is one.
outranks :
    (a r : UserRole)
    → ltb (tier a) (tier r) ≡ false
    → is_super_admin r ≡ true
    → is_super_admin a ≡ true
outranks a r h s = tier_top a (ap (ltb (tier a)) (sym (tier_super r s)) ∙ h)

abbrev actor_of : Request → String
actor_of (updates a b changes) = a
actor_of (deletes a b) = a

-- An actor that the hierarchy let at a super-admin's row is a super-admin.
touches_super :
    (a : String) (actor : User) (t : Tables) (row target : User) (n : Option UserRole) (k : ℕ)
    → user_by_id a t.users ≡ some actor
    → user_by_id a t.users ≡ some row
    → Authorised (to_user_role row.role) (to_user_role target.role) n k
    → is_db_super_admin target.role ≡ true
    → is_db_super_admin actor.role ≡ true
touches_super a actor t row target n k ha hr auth s =
    let same =
      outranks (to_user_role row.role) (to_user_role target.role) auth.rank
        (is_super_admin-to_user_role target.role ∙ s) in
    ground (arith, is_super_admin-to_user_role row.role)

-- The row of a super-admin is as it was after any request whose actor is no super-admin.
pub super_admin_untouched :
    (r : Request) (t : Tables) (i : String) (actor u : User)
    → user_by_id (actor_of r) t.users ≡ some actor
    → is_db_super_admin actor.role ≡ false
    → user_by_id i t.users ≡ some u
    → is_db_super_admin u.role ≡ true
    → user_by_id i (manage r t).users ≡ some u
unfolding manage
super_admin_untouched (updates a b changes) t i actor u ha na hu su =
    elim (update_user-cases a b changes t) [
      | inl r ↦ Refused-keeps (λ t. user_by_id i t.users ≡ some u) (update_user a b changes) t r hu
      | inr (x, w) ↦
          let s = touches_super a actor t w.actor_row w.target_row _ _ ha w.is_actor w.authorised in
          ground (
            arith,
            w.after,
            w.is_target,
            eq_iff b i,
            user_by_id-update_at b i (written changes) t.users,
          )
    ]
super_admin_untouched (deletes a b) t i actor u ha na hu su = elim (delete_user-cases a b t) [
  | inl r ↦ Refused-keeps (λ t. user_by_id i t.users ≡ some u) (delete_user a b) t r hu
  | inr (n, w) ↦
      let s = touches_super a actor t w.actor_row w.target_row _ _ ha w.is_actor w.authorised in
      elim (Bool-cases (b == i)) [
        | inl e ↦ ground (arith, w.is_target, eq_iff b i)
        | inr e ↦ ap (user_by_id i) w.after ∙ user_by_id-delete_at b i t.users e ∙ hu
      ]
]

grants :
    (c : RoleChoice) (o : Option UserRole) (b : Option Bool) (d : DbRole)
    → grants_super (effective_new_role (record { role = o; custom_role_id = c; calls_enabled = b }))
      ≡ false
    → is_db_super_admin d ≡ false
    → is_db_super_admin
        (or_kept (written (record { role = o; custom_role_id = c; calls_enabled = b })).role d)
      ≡ false
unfolding written effective_new_role role_update to_prisma_user_role
grants undefined none b d g h = h
grants undefined (some user) b d g h = refl
grants undefined (some admin) b d g h = refl
grants undefined (some super_admin) b d g h = ground arith
grants null o b d g h = h
grants (assign r) o b d g h = refl

-- An update whose actor is no super-admin makes nobody a super-admin: who is one after it has the
-- row that it had before.
pub super_admin_not_granted :
    (a b : String) (changes : UpdateUserRequest) (t : Tables) (i : String) (actor u : User)
    → user_by_id a t.users ≡ some actor
    → is_db_super_admin actor.role ≡ false
    → user_by_id i (run (update_user a b changes) t).1.users ≡ some u
    → is_db_super_admin u.role ≡ true
    → user_by_id i t.users ≡ some u
super_admin_not_granted a b changes t i actor u ha na hu su =
    elim (update_user-cases a b changes t) [
      | inl (e, p) ↦ ground (arith, p)
      | inr (x, w) ↦
          let s = touches_super a actor t w.actor_row w.target_row _ _ ha w.is_actor w.authorised in
          let g = w.authorised.grants in
          let same = is_super_admin-to_user_role w.actor_row.role in
          let k =
            grants changes.custom_role_id changes.role changes.calls_enabled w.target_row.role in
          ground (
            arith,
            w.after,
            w.is_actor,
            w.is_target,
            eq_iff b i,
            user_by_id-update_at b i (written changes) t.users,
          )
    ]

abbrev pub to_admin : UpdateUserRequest
to_admin = record { role = some admin; custom_role_id = undefined; calls_enabled = none }

promoted :
    (a : String) (t : Tables) (u v : User)
    → user_by_id a t.users ≡ some v
    → v ≡ record u { role = db_user }
    → user_by_id a
        (run
          (update_loaded a to_admin
            (some (join t.roles (record u { role = db_user })))
            (some (join t.roles (record u { role = db_user }))))
          t).1.users
      ≡ some (record u { role = db_admin; custom_role_id = none })
unfolding query update_loaded assert_actor_may_manage assert_roles guard_last_super_admin
    effective_new_role assignment role_update to_user_role to_prisma_user_role update
promoted a t u v h e = ground (
  arith,
  user_by_id-update_at a a (record no_update { role = some db_admin; custom_role = disconnect })
      t.users,
  eq_refl a,
)

-- The hierarchy does not hold the tier USER down: an account at that tier that may send the request
-- makes itself an ADMIN.
pub user_makes_itself_admin :
    (a : String) (t : Tables) (u : User)
    → user_by_id a t.users ≡ some u
    → u.role ≡ db_user
    → user_by_id a (run (update_user a a to_admin) t).1.users
      ≡ some (record u { role = db_admin; custom_role_id = none })
unfolding update_user find_by_id query
user_makes_itself_admin a t u hu hr =
    let e : u ≡ record u { role = db_user } = ap (λ r. record u { role = r }) hr in
    subst
      (λ o.
        user_by_id a
          (run
            (update_loaded a to_admin (map_option (join t.roles) o) (map_option (join t.roles) o))
            t).1.users
        ≡ some (record u { role = db_admin; custom_role_id = none }))
      (sym (hu ∙ ap some e)) (promoted a t u u hu e)
