-- ===== src/Redis/Dataset.antt =====
-- What a Redis server holds at one instant, and what its documentation says of each command that
-- apps/api/src/infrastructure/redis/redis.service.ts sends: the reply, and the dataset after it.
-- The keys of the program fall into families by their prefix, and each family is used at one type
-- (text, counter, hash or set), so the error that Redis gives for a key of another type is left out.
use mathlib.Core.Option.{get_or}
use vertxing.Prelude.{
  ℕ, String, ◌-◌, Bool, true, false, ◌||◌, Option, none, some, List, [], ◌∷◌, ◌==◌, leb,
  if◌then◌else◌, is_some, is_text, lookup, length,
}
use vertxing.Prelude.Int.{ℤ, pos, increment, decrement}

pub record Dataset : Type 0 where
  pub text : String → Option String
  pub counter : String → Option ℤ
  -- An absent hash or set is the empty one, as in Redis.
  pub hash : String → List (String × String)
  pub members : String → List String
  -- The seconds that a key has left, `none` for a key that does not expire.
  pub ttl : String → Option ℕ

abbrev pub update {ℓ} : {A : Type ℓ} → (String → A) → String → A → String → A
update f k v j = if k == j then v else f j

-- One field of a hash is set, in place or at the end.
unfoldable pub put : String → String → List (String × String) → List (String × String)
put f v [] = (f, v) ∷ []
put f v ((g, w) ∷ h) = if g == f then (f, v) ∷ h else (g, w) ∷ put f v h

unfoldable pub put_all : List (String × String) → List (String × String) → List (String × String)
put_all [] h = h
put_all ((f, v) ∷ o) h = put_all o (put f v h)

unfoldable pub without : String → List (String × String) → List (String × String)
without f [] = []
without f ((g, w) ∷ h) = let rest = without f h in if g == f then rest else (g, w) ∷ rest

unfoldable pub has : String → List String → Bool
has m [] = false
has m (x ∷ xs) = x == m || has m xs

unfoldable pub remove : String → List String → List String
remove m [] = []
remove m (x ∷ xs) = let rest = remove m xs in if x == m then rest else x ∷ rest

abbrev pub is_empty {ℓ} : {A : Type ℓ} → List A → Bool
is_empty [] = true
is_empty (x ∷ xs) = false

abbrev pub exists : String → Dataset → Bool
exists k d =
    is_some (d.text k)
    || is_some (d.counter k)
    || (if is_empty (d.hash k) then false else true)
    || (if is_empty (d.members k) then false else true)

-- DEL, and what becomes of a key whose time has run out.
abbrev pub drop_key : String → Dataset → Dataset
drop_key k d = record {
  text = update d.text k none;
  counter = update d.counter k none;
  hash = update d.hash k [];
  members = update d.members k [];
  ttl = update d.ttl k none;
}

pub data Command : Type 0 where
  get del hgetall smembers scard incr decr : String → Command
  set : String → String → Option ℕ → Command
  set_nx : String → String → ℕ → Command
  sadd srem sismember hdel : String → String → Command
  hset : String → String → String → Command
  hset_object : String → List (String × String) → Command
  expire : String → ℕ → Command
  eval_compare_and_set : String → String → String → String → Command
  eval_delete_if_equals : String → String → Command

abbrev pub Reply : Command → Type 0
Reply (get k) = Option String
Reply (hgetall k) = List (String × String)
Reply (smembers k) = List String
Reply (scard k) = ℕ
Reply (sismember k m) = ℕ
Reply (set_nx k v t) = Option String
Reply (incr k) = ℤ
Reply (decr k) = ℤ
Reply (eval_compare_and_set k f e n) = ℕ
Reply (eval_delete_if_equals k e) = ℕ
Reply (del k) = Unit
Reply (set k v t) = Unit
Reply (sadd k m) = Unit
Reply (srem k m) = Unit
Reply (hdel k f) = Unit
Reply (hset k f v) = Unit
Reply (hset_object k o) = Unit
Reply (expire k n) = Unit

abbrev pub set_text : String → String → Option ℕ → Dataset → Dataset
set_text k v t d = record d { text = update d.text k (some v); ttl = update d.ttl k t }

-- A hash or a set that loses its last entry is no longer a key.
abbrev pub set_hash : String → List (String × String) → Dataset → Dataset
set_hash k [] d = drop_key k d
set_hash k (e ∷ h) d = record d { hash = update d.hash k (e ∷ h) }

abbrev pub set_members : String → List String → Dataset → Dataset
set_members k [] d = drop_key k d
set_members k (x ∷ xs) d = record d { members = update d.members k (x ∷ xs) }

-- The Lua script of `compareAndSetHashField`, which EVAL runs as one atomic step.
unfoldable pub compare_and_set_script : String → String → String → String → Dataset → ℕ × Dataset
compare_and_set_script k f e n d =
    if is_text (lookup f (d.hash k)) e then (1, set_hash k (put f n (d.hash k)) d) else (0, d)

-- The Lua script of `deleteIfEquals`.
unfoldable pub delete_if_equals_script : String → String → Dataset → ℕ × Dataset
delete_if_equals_script k e d = (1, if is_text (d.text k) e then drop_key k d else d)

unfoldable pub answer : (m : Command) → Dataset → Reply m × Dataset
unfolding compare_and_set_script delete_if_equals_script
answer (get k) d = (d.text k, d)
answer (hgetall k) d = (d.hash k, d)
answer (smembers k) d = (d.members k, d)
answer (scard k) d = (length (d.members k), d)
answer (sismember k m) d = (if has m (d.members k) then 1 else 0, d)
answer (set_nx k v t) d = if exists k d then (none, d) else (some "OK", set_text k v (some t) d)
answer (incr k) d =
    let n = increment (get_or (d.counter k) (pos 0)) in
    (n, record d { counter = update d.counter k (some n) })
answer (decr k) d =
    let n = decrement (get_or (d.counter k) (pos 0)) in
    (n, record d { counter = update d.counter k (some n) })
answer (eval_compare_and_set k f e n) d = compare_and_set_script k f e n d
answer (eval_delete_if_equals k e) d = delete_if_equals_script k e d
answer (del k) d = (tt, drop_key k d)
answer (set k v t) d = (tt, set_text k v t d)
answer (sadd k m) d = (tt, if has m (d.members k) then d else set_members k (m ∷ d.members k) d)
answer (srem k m) d = (tt, set_members k (remove m (d.members k)) d)
answer (hdel k f) d = (tt, set_hash k (without f (d.hash k)) d)
answer (hset k f v) d = (tt, set_hash k (put f v (d.hash k)) d)
answer (hset_object k o) d = (tt, set_hash k (put_all o (d.hash k)) d)
answer (expire k n) d = (tt, if exists k d then record d { ttl = update d.ttl k (some n) } else d)

abbrev is_due : ℕ → Option ℕ → Bool
is_due n none = false
is_due n (some t) = leb t n

abbrev shorten : ℕ → Option ℕ → Option ℕ
shorten n none = none
shorten n (some t) = some (t - n)

-- `n` seconds pass and no command arrives.
unfoldable pub elapse : ℕ → Dataset → Dataset
elapse n d = record {
  text = λ k. if is_due n (d.ttl k) then none else d.text k;
  counter = λ k. if is_due n (d.ttl k) then none else d.counter k;
  hash = λ k. if is_due n (d.ttl k) then [] else d.hash k;
  members = λ k. if is_due n (d.ttl k) then [] else d.members k;
  ttl = λ k. if is_due n (d.ttl k) then none else shorten n (d.ttl k);
}
