-- ===== src/Redis/Service.antt =====
-- The methods of RedisService (apps/api/src/infrastructure/redis/redis.service.ts), each as the
-- commands that it sends. The connection's set-up and shutdown are not modelled.
use vertxing.Prelude.{ℕ, zero, suc, String, Bool, Option, none, some, List, is_text}
use vertxing.Prelude.Int.{ℤ}
use vertxing.Redis.Dataset.{
  get as get_command, del, hgetall, smembers, scard, incr, decr, set as set_command, set_nx, sadd,
  srem, sismember, hdel, hset, hset_object, expire as expire_command, eval_compare_and_set,
  eval_delete_if_equals,
}
use vertxing.Redis.Prog.{Prog, ret, send}
use Prim.Native.Nat.{compare, Ordering}
use mathlib.Core.Bool.{true, false}

-- `reply === 1`
abbrev pub is_reply_one : ℕ → Bool
is_reply_one n = elim (compare n 1) [ Ordering.eq ↦ true | _ ↦ false ]

abbrev done : Unit {0} → Prog (Unit {0})
done r = ret tt

-- `if (ttlSeconds)`: no time to live, and one of zero, both mean a key that stays.
abbrev seconds : Option ℕ → Option ℕ
seconds none = none
seconds (some zero) = none
seconds (some (suc n)) = some (suc n)

unfoldable pub set : String → String → Option ℕ → Prog (Unit {0})
set key value ttl_seconds = send (set_command key value (seconds ttl_seconds)) done

unfoldable pub get : String → Prog (Option String)
get key = send (get_command key) ret

unfoldable pub delete : String → Prog (Unit {0})
delete key = send (del key) done

unfoldable pub add_to_set : String → String → Prog (Unit {0})
add_to_set key member = send (sadd key member) done

unfoldable pub remove_from_set : String → String → Prog (Unit {0})
remove_from_set key member = send (srem key member) done

unfoldable pub set_members : String → Prog (List String)
set_members key = send (smembers key) ret

unfoldable pub set_size : String → Prog ℕ
set_size key = send (scard key) ret

unfoldable pub set_has : String → String → Prog Bool
set_has key member = send (sismember key member) (λ r. ret (is_reply_one r))

unfoldable pub hash_set : String → String → String → Prog (Unit {0})
hash_set key field value = send (hset key field value) done

unfoldable pub hash_delete : String → String → Prog (Unit {0})
hash_delete key field = send (hdel key field) done

unfoldable pub hash_get_all : String → Prog (List (String × String))
hash_get_all key = send (hgetall key) ret

unfoldable pub expire : String → ℕ → Prog (Unit {0})
expire key ttl_seconds = send (expire_command key ttl_seconds) done

unfoldable pub set_if_absent : String → String → ℕ → Prog Bool
set_if_absent key value ttl_seconds =
    send (set_nx key value ttl_seconds) (λ r. ret (is_text r "OK"))

unfoldable pub hash_set_object : String → List (String × String) → Prog (Unit {0})
hash_set_object key obj = send (hset_object key obj) done

unfoldable pub compare_and_set_hash_field : String → String → String → String → Prog Bool
compare_and_set_hash_field key field expected next =
    send (eval_compare_and_set key field expected next) (λ r. ret (is_reply_one r))

unfoldable pub delete_if_equals : String → String → Prog (Unit {0})
delete_if_equals key expected = send (eval_delete_if_equals key expected) (λ _. ret tt)

unfoldable pub increment : String → Prog ℤ
increment key = send (incr key) ret

unfoldable pub decrement : String → Prog ℤ
decrement key = send (decr key) ret
