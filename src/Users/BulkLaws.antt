-- ===== src/Users/BulkLaws.antt =====
-- What a change to many accounts keeps: bulkUpdate of apps/api/src/modules/users/users.service.ts.
use mathlib.Core.Path.{subst}
use mathlib.Core.Option.{map as map_option}
use vertxing.Prelude.{
  ◌≤◌, String, ◌≡◌, ◌∙◌, refl, sym, ap, Bool, true, false, Option, none, some, List, [], ◌∷◌, ◌⊎◌,
  inl, inr, Bool-cases, ltb, arith,
}
use vertxing.Http.{forbidden}
use vertxing.Database.Tables.{
  Tables, db_super_admin, UserWithRole, super_admins, user_by_id, join, query,
}
use vertxing.Database.Query.{run, or_throw, ◌>>=◌}
use vertxing.Users.Service.{to_user_role, find_by_id}
use vertxing.Users.Manage.{UpdateUserRequest}
use vertxing.Users.Authority.{written}
use vertxing.Users.SuperAdmins.{keeps_or_demotes}
use vertxing.Users.Bulk.{distinct, demoted_supers, bulk_found, bulk_of, bulk_update}
use vertxing.Users.BulkCases.{
  outranked, targets, BulkWrote, bulk_found-cases, super_admins-update_all,
  super_admins-update_all_kept,
}

BulkWrote-keeps_one :
    (actor : UserWithRole) (ids : List String) (changes : UpdateUserRequest) (t t' : Tables)
    → BulkWrote actor ids changes t t'
    → 1 ≤ super_admins t.users
    → 1 ≤ super_admins t'.users
BulkWrote-keeps_one actor ids changes t t' w h =
    let c = written changes in
    let tally = super_admins-update_all t.roles ids c t.users in
    elim (keeps_or_demotes changes.custom_role_id changes.role changes.calls_enabled db_super_admin
      refl) [
        | inl k ↦ ground (arith, super_admins-update_all_kept ids c t.users k, w.after)
        | inr d ↦ elim (Bool-cases (ltb 0 (demoted_supers (targets ids t)))) [
          | inl p ↦ ground (arith, tally, w.after, w.spare d p)
          | inr z ↦ ground (arith, tally, w.after)
        ]
      ]

-- What becomes of the tables under a batch for one of the two reasons that leave them, or by a write.
abbrev Kept :
    (t t' : Tables) (actor_id : String) (ids : List String) (changes : UpdateUserRequest) → Type 0
Kept t t' actor_id ids changes =
    (t' ≡ t)
    ⊎ ((a : UserWithRole) × (map_option (join t.roles) (user_by_id actor_id t.users) ≡ some a)
        × BulkWrote a ids changes t t')

found-Kept :
    (actor_id i : String) (is : List String) (changes : UpdateUserRequest) (t : Tables)
    (o : Option UserWithRole)
    → map_option (join t.roles) (user_by_id actor_id t.users) ≡ o
    → Kept t
        (run (or_throw (forbidden "Authentication required") o >>= bulk_found (i ∷ is) changes) t).1
        actor_id
        (i ∷ is)
        changes
found-Kept actor_id i is changes t none h = inl refl
found-Kept actor_id i is changes t (some a) h = elim (bulk_found-cases (i ∷ is) changes t a) [
  | inl (e, p) ↦ inl (ap (λ r. r.1) p)
  | inr w ↦ inr (a, h, w)
]

bulk_of-Kept :
    (actor_id : String) (ids : List String) (changes : UpdateUserRequest) (t : Tables)
    → Kept t (run (bulk_of actor_id changes ids) t).1 actor_id ids changes
unfolding bulk_of find_by_id query
bulk_of-Kept actor_id [] changes t = inl refl
bulk_of-Kept actor_id (i ∷ is) changes t =
    found-Kept actor_id i is changes t (map_option (join t.roles) (user_by_id actor_id t.users))
      refl

-- Where there is a super-admin, there is one after a change to many accounts, whoever asks, whatever
-- the accounts and the change.
pub bulk_update_keeps_super_admin :
    (actor_id : String) (ids : List String) (changes : UpdateUserRequest) (t : Tables)
    → 1 ≤ super_admins t.users
    → 1 ≤ super_admins (run (bulk_update actor_id ids changes) t).1.users
unfolding bulk_update
bulk_update_keeps_super_admin actor_id ids changes t h =
    elim (bulk_of-Kept actor_id (distinct [] ids) changes t) [
      | inl e ↦ subst (λ t'. 1 ≤ super_admins t'.users) (sym e) h
      | inr (a, p, w) ↦ BulkWrote-keeps_one a (distinct [] ids) changes t _ w h
    ]

same_row : (a b : UserWithRole) → some a ≡ some b → a ≡ b
same_row a b h = ground arith

true-ne-false : (b : Bool) → b ≡ true → b ≡ false → ⊥
true-ne-false b p q = absurd (cc (p, q))

-- A batch that names anyone of a higher tier than the actor's changes no account at all.
pub bulk_update_all_or_nothing :
    (actor_id : String) (ids : List String) (changes : UpdateUserRequest) (t : Tables)
    (a : UserWithRole)
    → map_option (join t.roles) (user_by_id actor_id t.users) ≡ some a
    → outranked (to_user_role a.row.role) (targets (distinct [] ids) t) ≡ true
    → (run (bulk_update actor_id ids changes) t).1 ≡ t
unfolding bulk_update
bulk_update_all_or_nothing actor_id ids changes t a h o =
    elim (bulk_of-Kept actor_id (distinct [] ids) changes t) [
      | inl e ↦ e
      | inr (b, p, w) ↦ absurd (
          true-ne-false _ o (
            ap (λ a. outranked (to_user_role a.row.role) (targets (distinct [] ids) t))
              (same_row a b (sym h ∙ p))
            ∙ w.ranks))
    ]
