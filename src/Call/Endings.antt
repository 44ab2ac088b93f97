-- ===== src/Call/Endings.antt =====
-- What the requests that end a call answer and leave in Redis:
-- apps/api/src/modules/realtime/call.service.ts.
use Prim.Native.String.{◌++◌ as cat}
use vertxing.Keys.{sort_pair, tag_ne}
use mathlib.Core.Path.{subst}
use vertxing.Prelude.{
  sym, String, ◌≡◌, ◌≢◌, refl, Bool, true, false, not, some, [], arith, ◌==◌, if◌then◌else◌, lookup,
  eq_refl, eq_iff, is_some, Bool-cases, inl, inr,
}
use vertxing.Redis.Dataset.{Dataset, answer}
use vertxing.Redis.Prog.{Prog, ret, run, ◌>>=◌}
use vertxing.Redis.Laws.{hash-set_hash}
use vertxing.Redis.Service.{hash_get_all, compare_and_set_hash_field, delete, delete_if_equals}
use vertxing.Call.Types.{
  CallEndReason, declined, cancelled, RingingRole, caller_role, callee_role, field, is_truthy,
  call_key, pair_key,
}
use vertxing.Call.Ending.{reason_text, terminate_ringing, decline, cancel, hangup, timeout, drop}

pub data Ending : Type 0 where
  by_decline by_cancel by_hangup by_drop : String → Ending
  by_timeout : Ending

-- Whether a request to end the call was the one that ended it.
unfoldable pub ending : String → Ending → Prog Bool
unfolding decline cancel hangup drop timeout
ending c (by_decline u) = do r ← decline c u; ret (is_some r)
ending c (by_cancel u) = do r ← cancel c u; ret (is_some r)
ending c (by_hangup u) = do r ← hangup c u; ret (is_some r)
ending c (by_drop u) = do r ← drop c u; ret (is_some r)
ending c by_timeout = do r ← timeout c; ret (is_some r)

pub call_key-ne-pair_key : (c a b : String) → call_key c ≢ pair_key a b
unfolding call_key pair_key
call_key-ne-pair_key c a b e =
    let (x, y) = sort_pair a b in tag_ne "call:" "calll" "ock:" c (cat x (cat ":" y)) refl refl e

module _ (c : String) (d : Dataset) where
  abbrev pub lock : String
  lock = let meta = d.hash (call_key c) in pair_key (field "callerId" meta) (field "calleeId" meta)

  -- What a dropped socket comes to.
  abbrev pub dropped : String → Bool × Dataset
  dropped u =
      let meta = d.hash (call_key c) in
      if not (is_truthy (lookup "state" meta))
      then (false, d)
      else if field "state" meta == "ACTIVE"
      then run (ending c (by_hangup u)) d
      else if not (field "state" meta == "RINGING")
      then (false, d)
      else if field "callerId" meta == u
      then run (ending c (by_cancel u)) d
      else run (ending c (by_decline u)) d

  -- A dropped socket hangs up an active call; of a ringing one it is a cancel by the caller and a
  -- decline by anyone else.
  pub drop-dropped : (u : String) → run (ending c (by_drop u)) d ≡ dropped u
  unfolding ending hash_get_all answer
  drop-dropped u = elim (Bool-cases (is_truthy (lookup "state" (d.hash (call_key c))))) [
    | inr e ↦ ground arith
    | inl e ↦ elim (Bool-cases (field "state" (d.hash (call_key c)) == "ACTIVE")) [
      | inl a ↦ ground arith
      | inr a ↦ elim (Bool-cases (field "state" (d.hash (call_key c)) == "RINGING")) [
        | inr r ↦ ground arith
        | inl r ↦ elim (Bool-cases (field "callerId" (d.hash (call_key c)) == u)) [
          | inl w ↦ ground arith
          | inr w ↦ ground arith
        ]
      ]
    ]
  ]

  abbrev pub Cleaned : Bool × Dataset → Type 0
  Cleaned x = x.0 ≡ true → (x.1.hash (call_key c) ≡ []) × (x.1.text lock ≢ some c)

  abbrev pub Refused : Bool × Dataset → Type 0
  Refused x = x.0 ≡ false → x.1 ≡ d

  abbrev pub KeepsLocks : Bool × Dataset → Type 0
  KeepsLocks x =
      (k other : String)
      → k ≢ call_key c
      → other ≢ c
      → d.text k ≡ some other
      → x.1.text k ≡ some other

  pub record Clean (x : Bool × Dataset) : Type 0 where
    pub cleaned : Cleaned x
    pub refused : Refused x
    pub keeps : KeepsLocks x

  ringing-Clean :
      (u : String) (role : RingingRole) (reason : CallEndReason)
      → Clean (run (terminate_ringing c u role reason >>= λ r. ret (is_some r)) d)
  unfolding terminate_ringing compare_and_set_hash_field delete delete_if_equals hash_get_all answer
  ringing-Clean u role reason = record {
    cleaned = λ h. ground (
      arith,
      eq_refl (call_key c),
      eq_refl lock,
      eq_refl c,
      hash-set_hash (call_key c) "state" (reason_text reason) (d.hash (call_key c)) d,
    );
    refused = λ h.
        ground
          (arith, hash-set_hash (call_key c) "state" (reason_text reason) (d.hash (call_key c)) d);
    keeps = λ k other n m h. ground (
      arith,
      hash-set_hash (call_key c) "state" (reason_text reason) (d.hash (call_key c)) d,
      eq_iff (call_key c) k,
      eq_iff lock k,
      eq_iff other c,
    );
  }

  hangup-Clean : (u : String) → Clean (run (ending c (by_hangup u)) d)
  unfolding ending compare_and_set_hash_field delete delete_if_equals hash_get_all answer
  hangup-Clean u = record {
    cleaned = λ h. ground (
      arith,
      eq_refl (call_key c),
      eq_refl lock,
      eq_refl c,
      hash-set_hash (call_key c) "state" "ENDED" (d.hash (call_key c)) d,
    );
    refused =
        λ h. ground (arith, hash-set_hash (call_key c) "state" "ENDED" (d.hash (call_key c)) d);
    keeps = λ k other n m h. ground (
      arith,
      hash-set_hash (call_key c) "state" "ENDED" (d.hash (call_key c)) d,
      eq_iff (call_key c) k,
      eq_iff lock k,
      eq_iff other c,
    );
  }

  timeout-Clean : Clean (run (ending c by_timeout) d)
  unfolding ending compare_and_set_hash_field delete delete_if_equals hash_get_all answer
  timeout-Clean = record {
    cleaned = λ h. ground (
      arith,
      eq_refl (call_key c),
      eq_refl lock,
      eq_refl c,
      hash-set_hash (call_key c) "state" "MISSED" (d.hash (call_key c)) d,
    );
    refused =
        λ h. ground (arith, hash-set_hash (call_key c) "state" "MISSED" (d.hash (call_key c)) d);
    keeps = λ k other n m h. ground (
      arith,
      hash-set_hash (call_key c) "state" "MISSED" (d.hash (call_key c)) d,
      eq_iff (call_key c) k,
      eq_iff lock k,
      eq_iff other c,
    );
  }

  nothing-Clean : Clean (false, d)
  nothing-Clean = record { cleaned = λ h. cc; refused = λ h. refl; keeps = λ k other n m h. h }

  if-Clean : (b : Bool) (x y : Bool × Dataset) → Clean x → Clean y → Clean (if b then x else y)
  if-Clean true x y p q = p
  if-Clean false x y p q = q

  plain-Clean : (e : Ending) → ((u : String) → e ≢ by_drop u) → Clean (run (ending c e) d)
  unfolding ending
  plain-Clean (by_decline u) n = ringing-Clean u callee_role declined
  plain-Clean (by_cancel u) n = ringing-Clean u caller_role cancelled
  plain-Clean (by_hangup u) n = hangup-Clean u
  plain-Clean (by_drop u) n = absurd (n u refl)
  plain-Clean by_timeout n = timeout-Clean

  dropped-Clean : (u : String) → Clean (dropped u)
  dropped-Clean u =
      let meta = d.hash (call_key c) in
      if-Clean (not (is_truthy (lookup "state" meta))) _ _ nothing-Clean (
        if-Clean (field "state" meta == "ACTIVE") _ _ (hangup-Clean u) (
          if-Clean (not (field "state" meta == "RINGING")) _ _ nothing-Clean (
            if-Clean (field "callerId" meta == u) _ _ (plain-Clean (by_cancel u) (λ v. cc))
              (plain-Clean (by_decline u) (λ v. cc)))))

  ending-Clean : (e : Ending) → Clean (run (ending c e) d)
  ending-Clean (by_drop u) = subst Clean (sym (drop-dropped u)) (dropped-Clean u)
  ending-Clean (by_decline u) = plain-Clean (by_decline u) (λ v. cc)
  ending-Clean (by_cancel u) = plain-Clean (by_cancel u) (λ v. cc)
  ending-Clean (by_hangup u) = plain-Clean (by_hangup u) (λ v. cc)
  ending-Clean by_timeout = plain-Clean by_timeout (λ v. cc)

  -- A request that ends a call removes the call's hash and leaves no lock of that call on its pair.
  pub ending_cleans :
      (e : Ending)
      → (run (ending c e) d).0 ≡ true
      → ((run (ending c e) d).1.hash (call_key c) ≡ [])
        × ((run (ending c e) d).1.text lock ≢ some c)
  ending_cleans e = (ending-Clean e).cleaned

  -- A request to end a call that is refused changes nothing in Redis.
  pub ending_refused : (e : Ending) → (run (ending c e) d).0 ≡ false → (run (ending c e) d).1 ≡ d
  ending_refused e = (ending-Clean e).refused

  -- No request to end a call removes the lock that another call holds on a pair.
  pub ending_keeps_locks :
      (e : Ending) (a b other : String)
      → other ≢ c
      → d.text (pair_key a b) ≡ some other
      → (run (ending c e) d).1.text (pair_key a b) ≡ some other
  ending_keeps_locks e a b other =
      (ending-Clean e).keeps (pair_key a b) other (λ p. call_key-ne-pair_key c a b (sym p))

  -- A call whose hash is gone stays ended: every request to end it is refused and changes nothing.
  pub ending_gone : d.hash (call_key c) ≡ [] → (e : Ending) → run (ending c e) d ≡ (false, d)
  unfolding ending hash_get_all answer lookup
  ending_gone h (by_decline u) = ground arith
  ending_gone h (by_cancel u) = ground arith
  ending_gone h (by_hangup u) = ground arith
  ending_gone h (by_drop u) = ground arith
  ending_gone h by_timeout = ground arith

-- Of two requests to end one call, one after the other, at most one succeeds; the second changes
-- nothing.
pub ending_once :
    (c : String) (d : Dataset) (e f : Ending)
    → (run (ending c e) d).0 ≡ true
    → run (ending c f) (run (ending c e) d).1 ≡ (false, (run (ending c e) d).1)
ending_once c d e f h = ending_gone c (run (ending c e) d).1 ((ending-Clean c d e).cleaned h).0 f
