-- ===== src/Call/Contest.antt =====
-- The requests about one call of apps/api/src/modules/realtime/call.service.ts, as racing threads.
use vertxing.Prelude.{
  ℕ, ◌≤◌, String, ◌≡◌, refl, Bool, true, false, not, Option, none, some, List, [], ◌∷◌, map, ◌==◌,
  ◌&&◌, if◌then◌else◌, Bool-cases, inl, inr, lookup,
}
use vertxing.Redis.Dataset.{Dataset}
use vertxing.Redis.Prog.{Prog, ret, ◌>>=◌}
use vertxing.Redis.Service.{
  hash_get_all, is_reply_one, compare_and_set_hash_field, delete, delete_if_equals, expire,
}
use vertxing.Call.Types.{
  CallEndReason, declined, cancelled, missed, ended, CallParty, AcceptOutcome, accepted,
  not_accepted, gone, field, EndResult, CallMeta, RingingRole, caller_role, callee_role, Services,
  get_meta, is_truthy,
}
use vertxing.Call.Ending.{
  owner_of, reason_text, terminate_ringing, decline, cancel, hangup, timeout, drop, finish_ringing,
  finish_active, finish_timeout, finish_drop,
}
use vertxing.Call.Placing.{accept, finish_accept}
use vertxing.Call.Race.{
  Event, interleave, winners, over, next, Pending, lost, quiet, claim, AllPending, race-one_winner,
}

-- Whoever may ask about a call, and what they ask.
pub data Request : Type 0 where
  accepts : CallParty → Request
  declines cancels hangs_up drops : String → Request
  times_out : Request

abbrev won_accept : AcceptOutcome → Bool
won_accept (accepted c m u i s t) = true
won_accept (not_accepted r) = false

abbrev is_ringing_end : CallEndReason → Bool
is_ringing_end ended = false
is_ringing_end declined = true
is_ringing_end cancelled = true
is_ringing_end missed = true

abbrev won_end : Option EndResult → Bool
won_end none = false
won_end (some r) = is_ringing_end r.reason

abbrev won_timeout : Option (String × String) → Bool
won_timeout none = false
won_timeout (some p) = true

-- A request as a thread that ends with `true` if it moved the call out of RINGING.
unfoldable pub thread : Services → String → Request → Prog Bool
unfolding accept decline cancel hangup drop timeout
thread services c (accepts callee) = do o ← accept services c callee; ret (won_accept o)
thread services c (declines u) = do o ← decline c u; ret (won_end o)
thread services c (cancels u) = do o ← cancel c u; ret (won_end o)
thread services c (hangs_up u) = do o ← hangup c u; ret (won_end o)
thread services c (drops u) = do o ← drop c u; ret (won_end o)
thread services c times_out = do o ← timeout c; ret (won_timeout o)

module _ (c : String) where
  read-Pending :
      {A : Type 0} (b : Bool) (meta : CallMeta) (rest : CallMeta → Prog A) (z : A) (won : A → Bool)
      → won z ≡ false
      → Pending c (rest meta >>= λ o. ret (won o))
      → Pending c (
          (elim (if b then some meta else none) [ none ↦ ret z | some m ↦ rest m ]) >>= λ o.
          ret (won o))
  read-Pending true meta rest z won e p = p
  read-Pending false meta rest z won e p = rw e lost

  finish_accept-Pending :
      (services : Services) (callee : CallParty) (meta : CallMeta)
      → Pending c (finish_accept services c callee meta >>= λ o. ret (won_accept o))
  unfolding finish_accept compare_and_set_hash_field expire
  finish_accept-Pending services callee meta =
      elim (Bool-cases (field "calleeId" meta == callee.user_id)) [
        | inl e ↦ rw e (claim refl (next tt (λ _. next tt (λ _. over true))) lost)
        | inr e ↦ rw e lost
      ]

  finish_ringing-Pending :
      (user_id : String) (role : RingingRole) (reason : CallEndReason) (meta : CallMeta)
      → Pending c (finish_ringing c user_id role reason meta >>= λ o. ret (won_end o))
  unfolding finish_ringing compare_and_set_hash_field delete delete_if_equals
  finish_ringing-Pending user_id role reason meta =
      elim (Bool-cases (owner_of role meta == user_id)) [
        | inl e ↦ rw e (claim (safe reason) (next tt (λ _. next tt (λ _. over _))) lost)
        | inr e ↦ rw e lost
      ]
    where
      safe : (r : CallEndReason) → (reason_text r == "RINGING") ≡ false
      safe declined = refl
      safe cancelled = refl
      safe missed = refl
      safe ended = refl

  finish_timeout-Pending :
      (meta : CallMeta) → Pending c (finish_timeout c meta >>= λ o. ret (won_timeout o))
  unfolding finish_timeout compare_and_set_hash_field delete delete_if_equals
  finish_timeout-Pending meta = claim refl (next tt (λ _. next tt (λ _. over true))) lost

  if_won-Pending :
      (r : ℕ) (p : Prog (Option EndResult))
      → Pending c (p >>= λ o. ret (won_end o))
      → Pending c ((if not (is_reply_one r) then ret none else p) >>= λ o. ret (won_end o))
  if_won-Pending r p h = elim (Bool-cases (is_reply_one r)) [ inl w ↦ rw w h | inr w ↦ rw w lost ]

  -- A hangup never counts as a win: it ends an active call.
  finish_active-Pending :
      (user_id : String) (meta : CallMeta)
      → Pending c (finish_active c user_id meta >>= λ o. ret (won_end o))
  unfolding finish_active compare_and_set_hash_field delete delete_if_equals
  finish_active-Pending user_id meta =
      elim (Bool-cases
        (not (field "callerId" meta == user_id) && not (field "calleeId" meta == user_id))) [
          | inl e ↦ rw e lost
          | inr e ↦
              rw e (quiet refl (λ r. if_won-Pending r _ (quiet tt (λ _. quiet tt (λ _. lost)))))
        ]

  terminate_ringing-Pending :
      (user_id : String) (role : RingingRole) (reason : CallEndReason)
      → Pending c (terminate_ringing c user_id role reason >>= λ o. ret (won_end o))
  unfolding terminate_ringing get_meta hash_get_all
  terminate_ringing-Pending user_id role reason = quiet tt λ meta.
      read-Pending (is_truthy (lookup "state" meta)) meta (finish_ringing c user_id role reason)
        none won_end refl (finish_ringing-Pending user_id role reason meta)

  hangup-Pending : (user_id : String) → Pending c (hangup c user_id >>= λ o. ret (won_end o))
  unfolding hangup get_meta hash_get_all
  hangup-Pending user_id = quiet tt λ meta.
      read-Pending (is_truthy (lookup "state" meta)) meta (finish_active c user_id) none won_end
        refl (finish_active-Pending user_id meta)

  finish_drop-Pending :
      (user_id : String) (meta : CallMeta)
      → Pending c (finish_drop c user_id meta >>= λ o. ret (won_end o))
  unfolding finish_drop
  finish_drop-Pending user_id meta = elim (Bool-cases (field "state" meta == "ACTIVE")) [
    | inl e ↦ rw e (hangup-Pending user_id)
    | inr e ↦ elim (Bool-cases (field "state" meta == "RINGING")) [
      | inl r ↦ elim (Bool-cases (field "callerId" meta == user_id)) [
        | inl w ↦ rw (e, r, w) (terminate_ringing-Pending user_id caller_role cancelled)
        | inr w ↦ rw (e, r, w) (terminate_ringing-Pending user_id callee_role declined)
      ]
      | inr r ↦ rw (e, r) lost
    ]
  ]

  thread-Pending : (services : Services) (r : Request) → Pending c (thread services c r)
  unfolding thread get_meta hash_get_all
  thread-Pending services (accepts callee) = quiet tt λ meta.
      read-Pending (is_truthy (lookup "state" meta)) meta (finish_accept services c callee)
        (not_accepted gone) won_accept refl (finish_accept-Pending services callee meta)
  thread-Pending services (declines u) = terminate_ringing-Pending u callee_role declined
  thread-Pending services (cancels u) = terminate_ringing-Pending u caller_role cancelled
  thread-Pending services (hangs_up u) = hangup-Pending u
  thread-Pending services (drops u) = quiet tt λ meta.
      read-Pending (is_truthy (lookup "state" meta)) meta (finish_drop c u) none won_end refl
        (finish_drop-Pending u meta)
  thread-Pending services times_out = quiet tt λ meta.
      read-Pending (is_truthy (lookup "state" meta)) meta (finish_timeout c) none won_timeout refl
        (finish_timeout-Pending meta)

  threads-AllPending :
      (services : Services) (rs : List Request) → AllPending c (map (thread services c) rs)
  threads-AllPending services [] = tt
  threads-AllPending services (r ∷ rs) = (thread-Pending services r, threads-AllPending services rs)

-- However the Redis commands of any requests about one call interleave, whatever the dataset they
-- start from and however long they wait between commands, at most one of the requests is told that
-- it moved the call out of RINGING.
pub one_winner :
    (services : Services) (call_id : String) (requests : List Request) (events : List Event)
    (d : Dataset)
    → winners (interleave events (map (thread services call_id) requests) d).0 ≤ 1
one_winner services call_id requests events d =
    race-one_winner call_id events _ d (threads-AllPending call_id services requests)
