-- ===== src/Database/Tables.antt =====
-- The tables `users` and `roles` of apps/api/prisma/schema.prisma, and what Prisma documents of each
-- query that apps/api/src/modules/users/users.repository.ts sends: the rows it returns, and the
-- tables after it. A query that fails, such as an update of a missing row, leaves them as they are.
use mathlib.Core.Option.{map as map_option}
use vertxing.Prelude.{
  ℕ, suc, String, Bool, true, false, ◌&&◌, ◌||◌, Option, none, some, List, [], ◌∷◌, ◌==◌,
  if◌then◌else◌, is_some, map,
}

pub data DbRole : Type 0 where
  db_user db_admin db_super_admin : DbRole

pub record Role : Type 0 where
  pub id : String
  pub name : String
  pub permissions : List String
  pub default_landing : String

-- The columns that the services read or write, `createdAt` in milliseconds.
pub record User : Type 0 where
  pub id : String
  pub email : String
  pub display_name : String
  pub avatar_url : Option String
  pub role : DbRole
  pub custom_role_id : Option String
  pub do_not_disturb : Bool
  pub calls_enabled : Bool
  pub fcm_token : Option String
  pub created_at : ℕ

pub record UserWithRole : Type 0 where
  pub row : User
  pub custom_role : Option Role

pub record Tables : Type 0 where
  pub users : List User
  pub roles : List Role

-- `Prisma.UserUpdateInput`: a field left out stays as it is.
pub data RoleLink : Type 0 where
  keep disconnect : RoleLink
  connect : String → RoleLink

pub record UserUpdate : Type 0 where
  pub role : Option DbRole
  pub custom_role : RoleLink
  pub calls_enabled : Option Bool
  pub do_not_disturb : Option Bool
  pub fcm_token : Option String

abbrev pub no_update : UserUpdate
no_update = record {
  role = none;
  custom_role = keep;
  calls_enabled = none;
  do_not_disturb = none;
  fcm_token = none;
}

abbrev pub or_kept {ℓ} : {A : Type ℓ} → Option A → A → A
or_kept none x = x
or_kept (some y) x = y

abbrev linked : RoleLink → Option String → Option String
linked keep x = x
linked disconnect x = none
linked (connect r) x = some r

abbrev pub updated : UserUpdate → User → User
updated c u = record u {
  role = or_kept c.role u.role;
  custom_role_id = linked c.custom_role u.custom_role_id;
  calls_enabled = or_kept c.calls_enabled u.calls_enabled;
  do_not_disturb = or_kept c.do_not_disturb u.do_not_disturb;
  fcm_token = (if is_some c.fcm_token then c.fcm_token else u.fcm_token);
}

-- The primary key finds at most one row.
unfoldable pub user_by_id : String → List User → Option User
user_by_id i [] = none
user_by_id i (u ∷ us) = if u.id == i then some u else user_by_id i us

unfoldable pub role_by_id : String → List Role → Option Role
role_by_id i [] = none
role_by_id i (r ∷ rs) = if r.id == i then some r else role_by_id i rs

abbrev pub join : List Role → User → UserWithRole
join roles u = record {
  row = u;
  custom_role = elim u.custom_role_id [ none ↦ none | some r ↦ role_by_id r roles ];
}

unfoldable pub update_at : String → UserUpdate → List User → List User
update_at i c [] = []
update_at i c (u ∷ us) = if u.id == i then updated c u ∷ us else u ∷ update_at i c us

unfoldable pub delete_at : String → List User → List User
delete_at i [] = []
delete_at i (u ∷ us) = if u.id == i then us else u ∷ delete_at i us

-- `in`
unfoldable pub one_of : String → List String → Bool
one_of i [] = false
one_of i (j ∷ js) = j == i || one_of i js

unfoldable pub rows_of : List String → List User → List User
rows_of is [] = []
rows_of is (u ∷ us) = let rest = rows_of is us in if one_of u.id is then u ∷ rest else rest

unfoldable pub update_all : List String → UserUpdate → List User → List User
update_all is c [] = []
update_all is c (u ∷ us) =
    let rest = update_all is c us in if one_of u.id is then updated c u ∷ rest else u ∷ rest

abbrev pub is_db_super_admin : DbRole → Bool
is_db_super_admin db_super_admin = true
is_db_super_admin _ = false

unfoldable pub super_admins : List User → ℕ
super_admins [] = 0
super_admins (u ∷ us) = let n = super_admins us in if is_db_super_admin u.role then suc n else n

-- Connecting a missing role fails.
abbrev pub connectable : RoleLink → List Role → Bool
connectable keep rs = true
connectable disconnect rs = true
connectable (connect r) rs = is_some (role_by_id r rs)

pub data Query : Type 0 where
  find_unique : String → Query
  count_super_admins : Query
  count_role : String → Query
  update : String → UserUpdate → Query
  delete : String → Query
  find_many : List String → Query
  update_many : List String → UserUpdate → Query

-- `none` is an exception.
abbrev pub Rows : Query → Type 0
Rows (find_unique i) = Option UserWithRole
Rows count_super_admins = ℕ
Rows (count_role r) = ℕ
Rows (update i c) = Option UserWithRole
Rows (delete i) = Option User
Rows (find_many is) = List UserWithRole
Rows (update_many is c) = Option Unit

unfoldable pub query : (q : Query) → Tables → Rows q × Tables
query (find_unique i) t = (map_option (join t.roles) (user_by_id i t.users), t)
query count_super_admins t = (super_admins t.users, t)
query (count_role r) t = (if is_some (role_by_id r t.roles) then 1 else 0, t)
query (update i c) t =
    if is_some (user_by_id i t.users) && connectable c.custom_role t.roles
    then (let us = update_at i c t.users in
        (map_option (join t.roles) (user_by_id i us), record t { users = us }))
    else (none, t)
query (delete i) t = (user_by_id i t.users, record t { users = delete_at i t.users })
query (find_many is) t = (map (join t.roles) (rows_of is t.users), t)
query (update_many is c) t =
    if connectable c.custom_role t.roles
    then (some tt, record t { users = update_all is c t.users })
    else (none, t)
