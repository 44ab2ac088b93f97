-- ===== src/WaitingRoom/Laws.antt =====
-- What the host's decisions do to the three keys of a room: waiting-room.service.ts.
use vertxing.Prelude.{
  String, ◌≡◌, ◌∙◌, eq_sym, refl, sym, Bool, true, false, ◌==◌, arith, if◌then◌else◌, eq_refl,
  ne-eq_false, is_some, lookup,
}
use vertxing.Keys.{tag_ne}
use vertxing.Redis.Dataset.{Dataset, answer, has, hset, hdel, sadd, srem, expire as expire_command}
use vertxing.Redis.Laws.{
  lookup-put, has-remove, lookup-without, hash-hset, hash-hdel, hash-sadd, hash-srem, hash-expire,
  members-hset, members-hdel, has-sadd, members-srem, members-expire,
}
use vertxing.Redis.Prog.{Prog, run}
use vertxing.Redis.Service.{add_to_set, remove_from_set, hash_set, hash_delete, expire}
use vertxing.WaitingRoom.{
  ttl_seconds, waiting_key, admitted_key, denied_key, knock, cancel_knock, admit, deny, block,
}

-- The three keys of a room, and those of two rooms, are apart.
pub waiting-admitted : (r s : String) → (waiting_key r == admitted_key s) ≡ false
unfolding waiting_key admitted_key
waiting-admitted r s = ne-eq_false _ _ (tag_ne "waiting:room:" "admitted:room" ":" r s refl refl)

pub waiting-denied : (r s : String) → (waiting_key r == denied_key s) ≡ false
unfolding waiting_key denied_key
waiting-denied r s =
    ne-eq_false _ _ (λ e. tag_ne "denied:room:" "waiting:room" ":" s r refl refl (sym e))

pub admitted-denied : (r s : String) → (admitted_key r == denied_key s) ≡ false
unfolding admitted_key denied_key
admitted-denied r s =
    ne-eq_false _ _ (λ e. tag_ne "denied:room:" "admitted:roo" "m:" s r refl refl (sym e))

-- A guest's standing in a room.
pub record Standing : Type 0 where
  pub waiting : Bool
  pub admitted : Bool
  pub denied : Bool

unfoldable pub standing : String → String → Dataset → Standing
standing r i d = record {
  waiting = is_some (lookup i (d.hash (waiting_key r)));
  admitted = has i (d.members (admitted_key r));
  denied = has i (d.members (denied_key r));
}

-- What a guest or the host decides about an identity.
pub data Decision : Type 0 where
  knocks : (name : String) → Decision
  gives_up lets_in turns_away kicks : Decision

unfoldable pub decide : String → String → Decision → Prog (Unit {0})
decide r i (knocks name) = knock r i name
decide r i gives_up = cancel_knock r i
decide r i lets_in = admit r i
decide r i turns_away = deny r i
decide r i kicks = block r i

-- What the decision means for the identity's standing.
unfoldable pub decided : Decision → Standing → Standing
decided (knocks name) s = record s { waiting = true }
decided gives_up s = record s { waiting = false }
decided lets_in s = record { waiting = false; admitted = true; denied = false }
decided turns_away s = record s { waiting = false; admitted = false }
decided kicks s = record { waiting = false; admitted = false; denied = true }

-- The same, of one identity and another.
unfoldable pub decided_of : Bool → Decision → Standing → Standing
unfolding decided
decided_of b c s = if b then decided c s else s

knock-standing :
    (r i j name : String) (d : Dataset)
    → standing r i (run (knock r j name) d).1 ≡ decided_of (j == i) (knocks name) (standing r i d)
unfolding standing knock hash_set expire decided decided_of
knock-standing r i j name d =
    let d1 : Dataset = (answer (hset (waiting_key r) j name) d).1 in
    let w = waiting_key r in
    rw
      (
        hash-expire w w ttl_seconds d1,
        members-expire w (admitted_key r) ttl_seconds d1,
        members-expire w (denied_key r) ttl_seconds d1,
        hash-hset w w j d name,
        members-hset w (admitted_key r) j d name (waiting-admitted r r),
        members-hset w (denied_key r) j d name (waiting-denied r r),
        eq_refl,
        lookup-put,
      )
      (ground arith)

cancel_knock-standing :
    (r i j : String) (d : Dataset)
    → standing r i (run (cancel_knock r j) d).1 ≡ decided_of (j == i) gives_up (standing r i d)
unfolding standing cancel_knock hash_delete decided decided_of
cancel_knock-standing r i j d =
    let w = waiting_key r in
    rw
      (
        hash-hdel w w j d,
        members-hdel w (admitted_key r) j d (waiting-admitted r r),
        members-hdel w (denied_key r) j d (waiting-denied r r),
        eq_refl,
        lookup-without,
      )
      (ground arith)

deny-standing :
    (r i j : String) (d : Dataset)
    → standing r i (run (deny r j) d).1 ≡ decided_of (j == i) turns_away (standing r i d)
unfolding standing deny hash_delete remove_from_set decided decided_of
deny-standing r i j d =
    let w = waiting_key r in
    let a = admitted_key r in
    let d1 : Dataset = (answer (hdel w j) d).1 in
    rw
      (
        hash-srem a w j d1 (eq_sym a w ∙ waiting-admitted r r),
        members-srem a a j d1,
        members-srem a (denied_key r) j d1,
        admitted-denied r r,
        hash-hdel w w j d,
        members-hdel w a j d (waiting-admitted r r),
        members-hdel w (denied_key r) j d (waiting-denied r r),
        eq_refl w,
        eq_refl a,
        lookup-without,
        has-remove,
      )
      (ground arith)

admit-standing :
    (r i j : String) (d : Dataset)
    → standing r i (run (admit r j) d).1 ≡ decided_of (j == i) lets_in (standing r i d)
unfolding standing admit add_to_set expire hash_delete remove_from_set decided decided_of
admit-standing r i j d =
    let w = waiting_key r in
    let a = admitted_key r in
    let k = denied_key r in
    let d1 : Dataset = (answer (sadd a j) d).1 in
    let d2 : Dataset = (answer (expire_command a ttl_seconds) d1).1 in
    let d3 : Dataset = (answer (hdel w j) d2).1 in
    rw
      (
        hash-srem k w j d3 (eq_sym k w ∙ waiting-denied r r),
        members-srem k a j d3,
        members-srem k k j d3,
        eq_sym k a,
        admitted-denied r r,
        hash-hdel w w j d2,
        members-hdel w a j d2 (waiting-admitted r r),
        members-hdel w k j d2 (waiting-denied r r),
        hash-expire a w ttl_seconds d1,
        members-expire a a ttl_seconds d1,
        members-expire a k ttl_seconds d1,
        hash-sadd a w j d,
        has-sadd a a j d,
        eq_refl w,
        eq_refl a,
        eq_refl k,
        has-remove,
        has-sadd a k j d,
        admitted-denied r r,
        lookup-without,
      )
      (ground arith)

block-standing :
    (r i j : String) (d : Dataset)
    → standing r i (run (block r j) d).1 ≡ decided_of (j == i) kicks (standing r i d)
unfolding standing block add_to_set expire hash_delete remove_from_set decided decided_of
block-standing r i j d =
    let w = waiting_key r in
    let a = admitted_key r in
    let k = denied_key r in
    let d1 : Dataset = (answer (sadd k j) d).1 in
    let d2 : Dataset = (answer (expire_command k ttl_seconds) d1).1 in
    let d3 : Dataset = (answer (srem a j) d2).1 in
    rw
      (
        hash-hdel w w j d3,
        members-hdel w a j d3 (waiting-admitted r r),
        members-hdel w k j d3 (waiting-denied r r),
        hash-srem a w j d2 (eq_sym a w ∙ waiting-admitted r r),
        members-srem a a j d2,
        members-srem a k j d2,
        admitted-denied r r,
        hash-expire k w ttl_seconds d1,
        members-expire k a ttl_seconds d1,
        members-expire k k ttl_seconds d1,
        hash-sadd k w j d,
        has-sadd k k j d,
        eq_refl w,
        eq_refl a,
        eq_refl k,
        has-remove,
        has-sadd k a j d,
        eq_sym k a,
        admitted-denied r r,
        lookup-without,
      )
      (ground arith)

-- Each operation does to each identity of its room what the decision means: the standing of the
-- identity that it names changes accordingly, and that of every other stays.
pub decide-decided :
    (r i j : String) (c : Decision) (d : Dataset)
    → standing r i (run (decide r j c) d).1 ≡ decided_of (j == i) c (standing r i d)
unfolding decide
decide-decided r i j (knocks name) d = knock-standing r i j name d
decide-decided r i j gives_up d = cancel_knock-standing r i j d
decide-decided r i j lets_in d = admit-standing r i j d
decide-decided r i j turns_away d = deny-standing r i j d
decide-decided r i j kicks d = block-standing r i j d
