-- ===== src/Database/Laws.antt =====
-- How code that talks to the database runs in sequence, and what an update or a deletion leaves.
use mathlib.Core.Option.{map as map_option}
use vertxing.Prelude.{
  ap, ◌∙◌, ◌+◌, String, ◌≡◌, refl, false, some, List, [], ◌∷◌, ◌==◌, arith, eq_iff, if◌then◌else◌,
}
use vertxing.Http.{HttpError, Result, ok, throws}
use vertxing.Database.Tables.{
  Tables, User, UserUpdate, updated, user_by_id, update_at, delete_at, super_admins,
  is_db_super_admin, query, or_kept,
}
use vertxing.Database.Query.{Db, ret, throw, ask, run, ◌>>=◌}

-- What comes after a result: the rest of the code, or the exception.
abbrev pub continue {ℓ κ} :
    {A : Type ℓ} {B : Type κ} → Result A × Tables → (A → Db B) → Result B × Tables
continue (ok a, t) f = run (f a) t
continue (throws e, t) f = (throws e, t)

pub run-bind {ℓ κ} :
    {A : Type ℓ} {B : Type κ} (m : Db A) (f : A → Db B) (t : Tables)
    → run (m >>= f) t ≡ continue (run m t) f
run-bind (ret a) f t = refl
run-bind (throw e) f t = refl
run-bind (ask q k) f t = let (r, t') = query q t in run-bind (k r) f t'

pub run-throws {ℓ κ} :
    {A : Type ℓ} {B : Type κ} (m : Db A) (f : A → Db B) (t t' : Tables) (e : HttpError)
    → run m t ≡ (throws e, t')
    → run (m >>= f) t ≡ (throws e, t')
run-throws m f t t' e p = run-bind m f t ∙ ap (λ r. continue r f) p

pub run-ok {ℓ κ} :
    {A : Type ℓ} {B : Type κ} (m : Db A) (f : A → Db B) (t t' : Tables) (a : A)
    → run m t ≡ (ok a, t')
    → run (m >>= f) t ≡ run (f a) t'
run-ok m f t t' a p = run-bind m f t ∙ ap (λ r. continue r f) p

pub user_by_id-update_at :
    (i j : String) (c : UserUpdate) (us : List User)
    → user_by_id j (update_at i c us)
      ≡ (if i == j then map_option (updated c) (user_by_id i us) else user_by_id j us)
unfolding user_by_id update_at
user_by_id-update_at i j c [] = ground arith
user_by_id-update_at i j c (u ∷ us) =
    ground (arith, user_by_id-update_at i j c us, eq_iff i j, eq_iff u.id i, eq_iff u.id j)

pub user_by_id-delete_at :
    (i j : String) (us : List User)
    → (i == j) ≡ false
    → user_by_id j (delete_at i us) ≡ user_by_id j us
unfolding user_by_id delete_at
user_by_id-delete_at i j [] e = refl
user_by_id-delete_at i j (u ∷ us) e =
    ground (arith, user_by_id-delete_at i j us e, eq_iff i j, eq_iff u.id i, eq_iff u.id j)

-- An update takes away at most one super-admin, and none where the row stays one or was none.
pub super_admins-update_at :
    (i : String) (c : UserUpdate) (us : List User) (u : User)
    → user_by_id i us ≡ some u
    → super_admins us + (if is_db_super_admin (or_kept c.role u.role) then 1 else 0)
      ≡ super_admins (update_at i c us) + (if is_db_super_admin u.role then 1 else 0)
unfolding user_by_id update_at super_admins
super_admins-update_at i c [] u h = ground arith
super_admins-update_at i c (v ∷ vs) u h = ground (arith, super_admins-update_at i c vs u)

pub super_admins-delete_at :
    (i : String) (us : List User) (u : User)
    → user_by_id i us ≡ some u
    → super_admins us ≡ super_admins (delete_at i us) + (if is_db_super_admin u.role then 1 else 0)
unfolding user_by_id delete_at super_admins
super_admins-delete_at i [] u h = ground arith
super_admins-delete_at i (v ∷ vs) u h = ground (arith, super_admins-delete_at i vs u)
