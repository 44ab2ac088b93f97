-- ===== src/Call/Accepting.antt =====
-- What `accept` of apps/api/src/modules/realtime/call.service.ts answers and leaves in Redis.
use vertxing.Prelude.{
  refl, false, List, [], ◌∷◌, String, ◌≡◌, true, not, some, arith, ◌==◌, if◌then◌else◌, lookup,
  eq_refl,
}
use vertxing.Redis.Dataset.{Dataset, answer, is_empty, put}
use vertxing.Redis.Prog.{run}
use vertxing.Redis.Laws.{lookup-put, hash-set_hash}
use vertxing.Redis.Service.{hash_get_all, compare_and_set_hash_field, expire}
use vertxing.Call.Types.{
  CallFailureReason, CallParty, AcceptOutcome, accepted, not_accepted, gone, forbidden, field,
  Services, active_ttl, is_truthy, call_key, pair_key,
}
use vertxing.Call.Placing.{accept, accepted_with}

put-nonempty : (f v : String) (h : List (String × String)) → is_empty (put f v h) ≡ false
unfolding put
put-nonempty f v [] = refl
put-nonempty f v (x ∷ h) = ground arith

module _ (services : Services) (call_id : String) (callee : CallParty) (d : Dataset) where
  -- The answer that the call's hash calls for.
  abbrev pub may_accept : AcceptOutcome
  may_accept =
      let meta = d.hash (call_key call_id) in
      if not (is_truthy (lookup "state" meta))
      then not_accepted gone
      else if not (field "calleeId" meta == callee.user_id)
      then not_accepted forbidden
      else if field "state" meta == "RINGING"
      then accepted_with services call_id callee meta
      else not_accepted gone

  -- `accept` is answered with tokens exactly when the call rings and the caller of `accept` is its
  -- callee; with `forbidden` for anyone else; and with `gone` when there is no such call or it no
  -- longer rings.
  pub accept-may_accept : (run (accept services call_id callee) d).0 ≡ may_accept
  unfolding accept compare_and_set_hash_field expire hash_get_all answer
  accept-may_accept =
      ground
        (arith, hash-set_hash (call_key call_id) "state" "ACTIVE" (d.hash (call_key call_id)) d)

  -- A refused accept changes nothing in Redis.
  pub accept_refused :
      (r : CallFailureReason)
      → (run (accept services call_id callee) d).0 ≡ not_accepted r
      → (run (accept services call_id callee) d).1 ≡ d
  unfolding accept compare_and_set_hash_field expire hash_get_all answer
  accept_refused r e =
      ground
        (arith, hash-set_hash (call_key call_id) "state" "ACTIVE" (d.hash (call_key call_id)) d)

  -- An accept that is answered with tokens sets the state to ACTIVE, keeps every other field of the
  -- call, and keeps every lock.
  pub accept_wins :
      (id mode url caller caller_token callee_token f : String)
      → (run (accept services call_id callee) d).0
        ≡ accepted id mode url caller caller_token callee_token
      → let d' = (run (accept services call_id callee) d).1 in
        (lookup f (d'.hash (call_key call_id))
          ≡ (if "state" == f then some "ACTIVE" else lookup f (d.hash (call_key call_id))))
        × (d'.text ≡ d.text)
  unfolding accept compare_and_set_hash_field expire hash_get_all answer
  accept_wins id mode url caller caller_token callee_token f e = (
    ground (
      arith,
      eq_refl (call_key call_id),
      lookup-put "state" f "ACTIVE" (d.hash (call_key call_id)),
      hash-set_hash (call_key call_id) "state" "ACTIVE" (d.hash (call_key call_id)) d,
    ),
    ground (arith, hash-set_hash (call_key call_id) "state" "ACTIVE" (d.hash (call_key call_id)) d),
  )

  -- A call that rings, with its lock, is accepted by its callee: the answer has the mode of the call
  -- and a token of its room for each of the two, by identity and name; the state is ACTIVE and no other
  -- field of the call changes; no lock changes; and the call and its lock live on as active ones.
  pub accept_starts :
      (x f : String)
      → let meta = d.hash (call_key call_id) in
        let room = field "roomName" meta in
        let lock = pair_key (field "callerId" meta) (field "calleeId" meta) in
        is_truthy (lookup "state" meta) ≡ true
        → (field "calleeId" meta == callee.user_id) ≡ true
        → (field "state" meta == "RINGING") ≡ true
        → d.text lock ≡ some x
        → let (result, d') = run (accept services call_id callee) d in
          (result
            ≡ accepted call_id
                (field "mode" meta)
                services.server_url
                (field "callerId" meta)
                (services.create_access_token room
                  (field "callerId" meta)
                  (field "callerName" meta))
                (services.create_access_token room callee.user_id callee.name))
          × (lookup f (d'.hash (call_key call_id))
              ≡ (if "state" == f then some "ACTIVE" else lookup f meta))
          × (d'.text ≡ d.text)
          × (d'.ttl (call_key call_id) ≡ some active_ttl)
          × (d'.ttl lock ≡ some active_ttl)
  unfolding accept compare_and_set_hash_field expire hash_get_all answer
  accept_starts x f t k r l =
      let key = call_key call_id in
      let meta = d.hash key in
      let lock = pair_key (field "callerId" meta) (field "calleeId" meta) in
      let h = hash-set_hash key "state" "ACTIVE" meta d in
      (
        ground (arith, h),
        ground (arith, h, eq_refl key, lookup-put "state" f "ACTIVE" meta),
        ground (arith, h),
        ground (arith, h, eq_refl key, put-nonempty "state" "ACTIVE" meta),
        ground (arith, h, eq_refl key, eq_refl lock, l),
      )
