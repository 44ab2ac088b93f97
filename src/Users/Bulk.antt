-- ===== src/Users/Bulk.antt =====
-- One change to many accounts: `bulkUpdate` of apps/api/src/modules/users/users.service.ts, with
-- `findManyByIds` and `updateMany` of users.repository.ts.
use vertxing.Prelude.{
  ℕ, suc, String, Bool, true, false, Option, List, [], ◌∷◌, map, leb, ltb, if◌then◌else◌,
}
use vertxing.Http.{bad_request, forbidden, internal}
use vertxing.Permission.{UserRole}
use vertxing.Database.Tables.{
  UserWithRole, UserUpdate, no_update, one_of, find_many, update_many as update_many_query,
}
use vertxing.Database.Query.{Db, ret, throw, ask, or_throw, ◌>>=◌, ◌>>◌}
use vertxing.Users.Service.{to_user_role, is_super_admin, find_by_id, count_super_admins}
use vertxing.Users.Manage.{
  UpdateUserRequest, AdminUser, to_admin_user, effective_new_role, demotes, assert_actor_may_manage,
  assignment,
}

-- `[...new Set(ids)]`: each id where it first stands.
unfoldable pub distinct : List String → List String → List String
unfolding one_of
distinct seen [] = []
distinct seen (i ∷ is) =
    let known = one_of i seen in
    let rest = distinct (if known then seen else i ∷ seen) is in if known then rest else i ∷ rest

unfoldable pub find_many_by_ids : List String → Db (List UserWithRole)
find_many_by_ids ids = ask (find_many ids) ret

unfoldable pub update_many : List String → UserUpdate → Db (Unit {0})
update_many ids fields = ask (update_many_query ids fields) (or_throw internal)

-- The loop over the targets.
unfoldable pub assert_all : UserWithRole → Option UserRole → List UserWithRole → Db (Unit {0})
unfolding assert_actor_may_manage
assert_all actor new_role [] = ret tt
assert_all actor new_role (target ∷ targets) = do
  assert_actor_may_manage actor target new_role
  assert_all actor new_role targets

unfoldable pub demoted_supers : List UserWithRole → ℕ
unfolding to_user_role
demoted_supers [] = 0
demoted_supers (t ∷ ts) =
    let n = demoted_supers ts in if is_super_admin (to_user_role t.row.role) then suc n else n

-- The guard over the batch. The count less the demoted ones is below one when the count is at most
-- them.
unfoldable pub guard_batch : Bool → List UserWithRole → Db (Unit {0})
unfolding demoted_supers count_super_admins
guard_batch false targets = ret tt
guard_batch true targets =
    if ltb 0 (demoted_supers targets)
    then (do
      n ← count_super_admins
      if leb n (demoted_supers targets)
          then throw (bad_request "Cannot remove the last super-admin")
          else ret tt)
    else ret tt

-- `bulkUpdate` of some accounts once the actor is found.
unfoldable pub bulk_found : List String → UpdateUserRequest → UserWithRole → Db (List AdminUser)
unfolding find_many_by_ids effective_new_role assert_all guard_batch assignment update_many
bulk_found ids changes actor = do
  targets ← find_many_by_ids ids
  assert_all actor (effective_new_role changes) targets
  guard_batch (demotes (effective_new_role changes)) targets
  fields ←
      assignment changes.custom_role_id changes.role
        (record no_update { calls_enabled = changes.calls_enabled })
  update_many ids fields
  changed ← find_many_by_ids ids
  ret (map to_admin_user changed)

unfoldable pub bulk_of : String → UpdateUserRequest → List String → Db (List AdminUser)
unfolding find_by_id bulk_found
bulk_of actor_id changes [] = ret []
bulk_of actor_id changes (i ∷ is) = do
  actor ← find_by_id actor_id
  actor ← or_throw (forbidden "Authentication required") actor
  bulk_found (i ∷ is) changes actor

unfoldable pub bulk_update : String → List String → UpdateUserRequest → Db (List AdminUser)
unfolding distinct bulk_of
bulk_update actor_id user_ids changes = bulk_of actor_id changes (distinct [] user_ids)
