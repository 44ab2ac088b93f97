-- ===== src/Redis/Laws.antt =====
-- What the commands do to one hash, one text or one set.
use vertxing.Prelude.{
  ℕ, String, ◌≡◌, refl, false, none, ◌&&◌, ◌||◌, some, List, [], ◌∷◌, ◌==◌, eq_iff, arith,
  if◌then◌else◌, is_text, lookup,
}
use vertxing.Redis.Dataset.{
  Dataset, update, put, without, has, remove, set_hash, set_members, eval_compare_and_set, hset,
  hdel, sadd, srem, expire, answer,
}

pub lookup-put :
    (f g v : String) (h : List (String × String))
    → lookup g (put f v h) ≡ (if f == g then some v else lookup g h)
unfolding lookup put
lookup-put f g v [] = refl
lookup-put f g v ((i, w) ∷ h) =
    ground (arith, lookup-put f g v h, eq_iff f g, eq_iff i f, eq_iff i g)

pub hash-set_hash :
    (k f v : String) (h : List (String × String)) (d : Dataset)
    → set_hash k (put f v h) d ≡ record d { hash = update d.hash k (put f v h) }
unfolding put
hash-set_hash k f v [] d = refl
hash-set_hash k f v ((g, w) ∷ h) d = ground arith

-- The outcome of the compare-and-set script, and the field that it sets.
pub compare_and_set-reply :
    (k f e n : String) (d : Dataset)
    → (answer (eval_compare_and_set k f e n) d).0
      ≡ (if is_text (lookup f (d.hash k)) e then 1 else 0)
unfolding answer
compare_and_set-reply k f e n d = ground arith

pub compare_and_set-hash :
    (k f e n j : String) (d : Dataset)
    → (answer (eval_compare_and_set k f e n) d).1.hash j ≡ (
        if is_text (lookup f (d.hash k)) e
        then (if k == j then put f n (d.hash k) else d.hash j)
        else d.hash j)
unfolding answer
compare_and_set-hash k f e n j d = ground (arith, hash-set_hash k f n (d.hash k) d)

pub has-remove :
    (m x : String) (xs : List String) → has x (remove m xs) ≡ (if m == x then false else has x xs)
unfolding has remove
has-remove m x [] = ground arith
has-remove m x (y ∷ ys) = ground (arith, has-remove m x ys, eq_iff m x, eq_iff y m, eq_iff y x)

pub lookup-without :
    (m x : String) (h : List (String × String))
    → lookup x (without m h) ≡ (if m == x then none else lookup x h)
unfolding lookup without
lookup-without m x [] = ground arith
lookup-without m x ((y, v) ∷ h) =
    ground (arith, lookup-without m x h, eq_iff m x, eq_iff y m, eq_iff y x)

hash-set_hash_at :
    (k j : String) (h : List (String × String)) (d : Dataset)
    → (set_hash k h d).hash j ≡ (if k == j then h else d.hash j)
hash-set_hash_at k j [] d = refl
hash-set_hash_at k j (e ∷ h) d = refl

members-set_hash :
    (k j : String) (h : List (String × String)) (d : Dataset)
    → (k == j) ≡ false
    → (set_hash k h d).members j ≡ d.members j
members-set_hash k j [] d e = rw e
members-set_hash k j (x ∷ h) d e = refl

pub members-set_members_at :
    (k j : String) (xs : List String) (d : Dataset)
    → (set_members k xs d).members j ≡ (if k == j then xs else d.members j)
members-set_members_at k j [] d = refl
members-set_members_at k j (x ∷ xs) d = refl

hash-set_members :
    (k j : String) (xs : List String) (d : Dataset)
    → (k == j) ≡ false
    → (set_members k xs d).hash j ≡ d.hash j
hash-set_members k j [] d e = rw e
hash-set_members k j (x ∷ xs) d e = refl

-- What the commands on hashes and sets leave at a key.
module _ (k j f : String) (d : Dataset) where
  pub hash-hset :
      (v : String)
      → (answer (hset k f v) d).1.hash j ≡ (if k == j then put f v (d.hash k) else d.hash j)
  unfolding answer
  hash-hset v = hash-set_hash_at k j (put f v (d.hash k)) d

  pub hash-hdel :
      (answer (hdel k f) d).1.hash j ≡ (if k == j then without f (d.hash k) else d.hash j)
  unfolding answer
  hash-hdel = hash-set_hash_at k j (without f (d.hash k)) d

  pub members-hset :
      (v : String) → (k == j) ≡ false → (answer (hset k f v) d).1.members j ≡ d.members j
  unfolding answer
  members-hset v e = members-set_hash k j (put f v (d.hash k)) d e

  pub members-hdel : (k == j) ≡ false → (answer (hdel k f) d).1.members j ≡ d.members j
  unfolding answer
  members-hdel e = members-set_hash k j (without f (d.hash k)) d e

  pub members-srem :
      (answer (srem k f) d).1.members j ≡ (if k == j then remove f (d.members k) else d.members j)
  unfolding answer
  members-srem = members-set_members_at k j (remove f (d.members k)) d

  pub hash-srem : (k == j) ≡ false → (answer (srem k f) d).1.hash j ≡ d.hash j
  unfolding answer
  hash-srem e = hash-set_members k j (remove f (d.members k)) d e

  pub has-sadd :
      (m : String)
      → has m ((answer (sadd k f) d).1.members j) ≡ (has m (d.members j) || (k == j && f == m))
  unfolding answer has
  has-sadd m = ground (arith, eq_iff k j, eq_iff f m)

  pub hash-sadd : (answer (sadd k f) d).1.hash j ≡ d.hash j
  unfolding answer
  hash-sadd = ground arith

module _ (k j : String) (n : ℕ) (d : Dataset) where
  pub hash-expire : (answer (expire k n) d).1.hash j ≡ d.hash j
  unfolding answer
  hash-expire = ground arith

  pub members-expire : (answer (expire k n) d).1.members j ≡ d.members j
  unfolding answer
  members-expire = ground arith
