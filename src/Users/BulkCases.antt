-- ===== src/Users/BulkCases.antt =====
-- What a change to many accounts has checked when it writes: bulkUpdate of
-- apps/api/src/modules/users/users.service.ts.
use vertxing.Prelude.{
  ◌≤◌, ◌+◌, String, ◌≡◌, ◌∙◌, refl, ap, Bool, true, false, ◌||◌, Option, List, [], ◌∷◌, map, ◌⊎◌,
  inl, inr, Bool-cases, leb, ltb, arith,
}
use vertxing.Http.{HttpError, bad_request, internal, ok, throws}
use vertxing.Permission.{UserRole}
use vertxing.Database.Tables.{
  Tables, Role, DbRole, db_super_admin, User, UserWithRole, UserUpdate, no_update, or_kept, rows_of,
  update_all, connectable, super_admins, is_db_super_admin, join, query,
}
use vertxing.Database.Query.{Db, ret, run, ◌>>=◌, ◌>>◌}
use vertxing.Database.Laws.{run-throws, run-ok}
use vertxing.Users.Service.{to_user_role, count_super_admins}
use vertxing.Users.Manage.{
  tier, UpdateUserRequest, AdminUser, to_admin_user, effective_new_role, demotes,
  assert_actor_may_manage, assignment,
}
use vertxing.Users.Authority.{Refused, written, assert_roles-cases, assignment-cases}
use vertxing.Users.SuperAdmins.{is_super_admin-to_user_role}
use vertxing.Users.Bulk.{
  find_many_by_ids, update_many, assert_all, demoted_supers, guard_batch, bulk_found,
}

-- Whether somebody among the targets has a higher tier than the actor.
unfoldable pub outranked : UserRole → List UserWithRole → Bool
outranked a [] = false
outranked a (u ∷ us) = ltb (tier a) (tier (to_user_role u.row.role)) || outranked a us

assert_all-cases :
    (actor : UserWithRole) (n : Option UserRole) (ts : List UserWithRole) (t : Tables)
    → ((e : HttpError) × (run (assert_all actor n ts) t ≡ (throws e, t)))
      ⊎ ((run (assert_all actor n ts) t ≡ (ok tt, t))
          × (outranked (to_user_role actor.row.role) ts ≡ false))
unfolding assert_all outranked
assert_all-cases actor n [] t = inr (refl, refl)
assert_all-cases actor n (u ∷ us) t =
    let first = assert_actor_may_manage actor u n in
    elim (assert_roles-cases (to_user_role actor.row.role) (to_user_role u.row.role) n t) [
      | inl (e, h) ↦ inl (e, run-throws first (λ _. assert_all actor n us) t t e h)
      | inr (h, a) ↦ elim (assert_all-cases actor n us t) [
        | inl (e, k) ↦ inl (e, run-ok first (λ _. assert_all actor n us) t t tt h ∙ k)
        | inr (k, b) ↦
            inr (run-ok first (λ _. assert_all actor n us) t t tt h ∙ k, ground (arith, a.rank))
      ]
    ]

guard_batch-cases :
    (b : Bool) (ts : List UserWithRole) (t : Tables)
    → ((e : HttpError) × (run (guard_batch b ts) t ≡ (throws e, t)))
      ⊎ ((run (guard_batch b ts) t ≡ (ok tt, t))
          × (b ≡ true
              → ltb 0 (demoted_supers ts) ≡ true
              → leb (super_admins t.users) (demoted_supers ts) ≡ false))
unfolding guard_batch count_super_admins query
guard_batch-cases false ts t = inr (refl, λ e. absurd (cc e))
guard_batch-cases true ts t = elim (Bool-cases (ltb 0 (demoted_supers ts))) [
  | inr z ↦ inr (ground arith, λ _ p. ground arith)
  | inl p ↦ elim (Bool-cases (leb (super_admins t.users) (demoted_supers ts))) [
    | inl e ↦ inl (bad_request "Cannot remove the last super-admin", ground arith)
    | inr e ↦ inr (ground arith, λ _ _. e)
  ]
]

-- The batch takes away no more super-admins than it counts, and none where the role stays or is
-- super-admin.
pub super_admins-update_all :
    (roles : List Role) (is : List String) (c : UserUpdate) (us : List User)
    → super_admins us
      ≤ super_admins (update_all is c us) + demoted_supers (map (join roles) (rows_of is us))
unfolding super_admins update_all rows_of demoted_supers
super_admins-update_all roles is c [] = ground arith
super_admins-update_all roles is c (u ∷ us) =
    ground (arith, super_admins-update_all roles is c us, is_super_admin-to_user_role u.role)

is_super : (d : DbRole) → is_db_super_admin d ≡ true → d ≡ db_super_admin
is_super d h = ground arith

pub super_admins-update_all_kept :
    (is : List String) (c : UserUpdate) (us : List User)
    → is_db_super_admin (or_kept c.role db_super_admin) ≡ true
    → super_admins us ≤ super_admins (update_all is c us)
unfolding super_admins update_all
super_admins-update_all_kept is c [] h = ground arith
super_admins-update_all_kept is c (u ∷ us) h =
    ground (arith, super_admins-update_all_kept is c us h)

-- The rows that a batch is about.
abbrev pub targets : List String → Tables → List UserWithRole
targets ids t = map (join t.roles) (rows_of ids t.users)

-- A batch that writes, with what it has checked.
pub record BulkWrote (actor : UserWithRole) (ids : List String) (changes : UpdateUserRequest)
    (t t' : Tables) : Type 0 where
  pub ranks : outranked (to_user_role actor.row.role) (targets ids t) ≡ false
  pub spare :
      demotes (effective_new_role changes) ≡ true
      → ltb 0 (demoted_supers (targets ids t)) ≡ true
      → leb (super_admins t.users) (demoted_supers (targets ids t)) ≡ false
  pub after : t'.users ≡ update_all ids (written changes) t.users

module _ (ids : List String) (changes : UpdateUserRequest) (t : Tables) where
  -- The write, and what answers it.
  abbrev tell : Db (List AdminUser)
  tell = find_many_by_ids ids >>= λ changed. ret (map to_admin_user changed)

  abbrev write : UserUpdate → Db (List AdminUser)
  write fields = update_many ids fields >> tell

  abbrev assign_all : Db (List AdminUser)
  assign_all =
      assignment changes.custom_role_id changes.role
        (record no_update { calls_enabled = changes.calls_enabled })
      >>= write

  abbrev guard_all : Db (List AdminUser)
  guard_all = guard_batch (demotes (effective_new_role changes)) (targets ids t) >> assign_all

  write-cases :
      Refused (write (written changes)) t
      ⊎ ((run (write (written changes)) t).1.users ≡ update_all ids (written changes) t.users)
  unfolding update_many find_many_by_ids query
  write-cases = elim (Bool-cases (connectable (written changes).custom_role t.roles)) [
    | inl e ↦ inr (ground arith)
    | inr e ↦ inl (internal, ground arith)
  ]

  assign_all-cases :
      Refused assign_all t ⊎ ((run assign_all t).1.users ≡ update_all ids (written changes) t.users)
  assign_all-cases =
      let first =
        assignment changes.custom_role_id changes.role
          (record no_update { calls_enabled = changes.calls_enabled }) in
      elim (assignment-cases changes.custom_role_id changes.role changes.calls_enabled t) [
        | inl (e, h) ↦ inl (e, run-throws first write t t e h)
        | inr h ↦ elim write-cases [
          | inl (e, k) ↦ inl (e, run-ok first write t t (written changes) h ∙ k)
          | inr k ↦ inr (ap (λ r. r.1.users) (run-ok first write t t (written changes) h) ∙ k)
        ]
      ]

  module _ (actor : UserWithRole) where
    pub bulk_found-cases :
        Refused (bulk_found ids changes actor) t
        ⊎ BulkWrote actor ids changes t (run (bulk_found ids changes actor) t).1
    unfolding bulk_found find_many_by_ids query
    bulk_found-cases =
        let n = effective_new_role changes in
        let check = assert_all actor n (targets ids t) in
        let guard = guard_batch (demotes n) (targets ids t) in
        elim (assert_all-cases actor n (targets ids t) t) [
          | inl (e, h) ↦ inl (e, run-throws check (λ _. guard_all) t t e h)
          | inr (h, a) ↦ elim (guard_batch-cases (demotes n) (targets ids t) t) [
            | inl (e, k) ↦ inl (
              e,
              run-ok check (λ _. guard_all) t t tt h ∙ run-throws guard (λ _. assign_all) t t e k,
            )
            | inr (k, s) ↦
                let p =
                  run-ok check (λ _. guard_all) t t tt h
                  ∙ run-ok guard (λ _. assign_all) t t tt k in
                elim assign_all-cases [
                  | inl (e, q) ↦ inl (e, p ∙ q)
                  | inr q ↦ inr (record { ranks = a; spare = s; after = ap (λ r. r.1.users) p ∙ q })
                ]
          ]
        ]
