-- ===== src/Gateway/Adding.antt =====
-- What becomes of a call whose socket does not carry it: an added person's answer, and a callee who
-- has not accepted, of apps/api/src/modules/realtime/events.gateway.ts with the screen of
-- apps/web/lib/call-context.tsx.
use text.Mathlib.TextLemmas.{append_cancel_left}
use vertxing.Prelude.{
  String, ◌≡◌, ◌≢◌, ◌∙◌, refl, sym, ap, true, false, none, some, [], ◌∷◌, ◌==◌, arith, eq_refl,
  lookup, ne-eq_false, eq_sym,
}
use vertxing.Redis.Dataset.{Dataset, answer}
use vertxing.Redis.Prog.{run}
use vertxing.Redis.Laws.{hash-set_hash}
use vertxing.Redis.Service.{hash_get_all, compare_and_set_hash_field, delete, delete_if_equals}
use vertxing.Call.Types.{CallParty, ended, field, is_truthy, call_key, pair_key}
use vertxing.Call.Ending.{hangup}
use vertxing.Call.Endings.{call_key-ne-pair_key}
use vertxing.Gateway.{SocketData, to_room, call_ended, Reaction, user_room, notify_ended}
use vertxing.Gateway.Calls.{on_call_hangup}
use vertxing.Http.{ok}
use vertxing.Meetings.World.{World, serve, lift, ret as done}
use vertxing.Meetings.Sequence.{serve-lift, goes_on}
use vertxing.Call.Presence.{mark_offline}
use vertxing.Gateway.Connection.{handle_disconnect, withdraw, tear_down}
use vertxing.Gateway.Leaving.{mark_offline-hash, in_call}
use vertxing.Web.Screen.{
  Screen, Livekit, idle_call, active, step, on_accepted, presses_hangup, adds_to_call, sends_add,
  add_to_call, got_accepted, sends_hangup, emit_call, reset,
}
use vertxing.Gateway.Signalling.{run-answer}

call_key-injective : (c e : String) → c ≢ e → (call_key c == call_key e) ≡ false
unfolding call_key
call_key-injective c e n = ne-eq_false _ _ (λ p. n (append_cancel_left "call:" c e p))

pair_key-call_key : (a b c : String) → (pair_key a b == call_key c) ≡ false
pair_key-call_key a b c = ne-eq_false _ _ (λ p. call_key-ne-pair_key c a b (sym p))

-- Hanging up one call leaves every other call's hash.
hangup_other :
    (e c u : String) (d : Dataset)
    → c ≢ e
    → (run (hangup e u) d).1.hash (call_key c) ≡ d.hash (call_key c)
unfolding hangup hash_get_all compare_and_set_hash_field delete delete_if_equals answer
hangup_other e c u d n =
    let meta = d.hash (call_key e) in
    ground (
      arith,
      hash-set_hash (call_key e) "state" "ENDED" meta d,
      eq_sym (call_key c) (call_key e),
      call_key-injective c e n,
      pair_key-call_key (field "callerId" meta) (field "calleeId" meta) c,
    )

abbrev forgot : CallParty → SocketData
forgot user = record { user = some user; knocking_room = none; call_id = none }

quiet_disconnect :
    (user : CallParty) (w : World)
    → serve (handle_disconnect (forgot user)) w
      ≡ (ok [], record w { redis = (run (mark_offline user.user_id) w.redis).1 })
unfolding handle_disconnect withdraw tear_down
quiet_disconnect user w =
    goes_on (lift (mark_offline user.user_id)) (λ _. done []) w _ tt
      (serve-lift (mark_offline user.user_id) w)

-- The socket of a callee who has not accepted carries no call: when it goes away, nobody is told, and
-- the call rings on in Redis.
pub unanswered_leaves-rings :
    (user : CallParty) (c : String) (w : World)
    → let (left, w') = serve (handle_disconnect (forgot user)) w in
      (left ≡ ok []) × (w'.redis.hash (call_key c) ≡ w.redis.hash (call_key c))
unanswered_leaves-rings user c w =
    let q = quiet_disconnect user w in
    (
      ap (λ x. x.0) q,
      ap (λ x. x.1.redis.hash (call_key c)) q ∙ mark_offline-hash user.user_id c w.redis,
    )

-- A party of an active call ends it by hanging up.
hangup_ends :
    (e u : String) (d : Dataset)
    → let meta = d.hash (call_key e) in
      is_truthy (lookup "state" meta) ≡ true
      → (field "state" meta == "ACTIVE") ≡ true
      → (field "callerId" meta == u) ≡ true
      → ((run (hangup e u) d).0
          ≡ some (record { call_id = e; other_id = field "calleeId" meta; reason = ended }))
        × ((run (hangup e u) d).1.hash (call_key e) ≡ [])
unfolding hangup hash_get_all compare_and_set_hash_field delete delete_if_equals answer
hangup_ends e u d t a k =
    let meta = d.hash (call_key e) in
    (
      ground (arith, hash-set_hash (call_key e) "state" "ENDED" meta d),
      ground (arith, eq_refl (call_key e), hash-set_hash (call_key e) "state" "ENDED" meta d),
    )

adds :
    (s : Screen) (c added : String)
    → s.has_socket ≡ true
    → s.call.status ≡ active
    → s.call.call_id ≡ some c
    → is_truthy (some c) ≡ true
    → (step s (adds_to_call added)).1 ≡ sends_add c added ∷ []
unfolding step add_to_call
adds s c added hs hv hc t = ground arith

hangs_up :
    (s : Screen) (e mode : String) (livekit : Livekit)
    → s.has_socket ≡ true
    → is_truthy (some e) ≡ true
    → (step (step s (got_accepted e mode livekit)).0 presses_hangup).1 ≡ sends_hangup e ∷ []
unfolding step emit_call on_accepted
hangs_up s e mode livekit hs t = ground arith

-- In an active call `c`, the user adds somebody, whose call `e` is then active too, placed by the user:
-- its answer takes the place of `c` on the user's screen. Hanging up sends the end of `e` alone and
-- blanks the screen; the server ends `e`, tells the person who was added and nobody else, and makes
-- the socket forget `c`, so that nobody is told when the socket goes away either: `c` stays in Redis
-- as it was, active.
pub added_hangup-keeps :
    (s : Screen) (user : CallParty) (c e added mode : String) (livekit : Livekit) (w : World)
    → s.has_socket ≡ true
    → s.call.status ≡ active
    → s.call.call_id ≡ some c
    → is_truthy (some c) ≡ true
    → is_truthy (some e) ≡ true
    → c ≢ e
    → field "state" (w.redis.hash (call_key c)) ≡ "ACTIVE"
    → let meta = w.redis.hash (call_key e) in
      is_truthy (lookup "state" meta) ≡ true
      → (field "state" meta == "ACTIVE") ≡ true
      → (field "callerId" meta == user.user_id) ≡ true
      → field "calleeId" meta ≡ added
      → let (s1, sent1) = step s (adds_to_call added) in
        let (s2, sent2) = step s1 (got_accepted e mode livekit) in
        let (s3, sent3) = step s2 presses_hangup in
        let (reaction, d) = run (on_call_hangup (in_call user c) user e) w.redis in
        let (left, w') = serve (handle_disconnect reaction.0) (record w { redis = d }) in
        (sent1 ≡ sends_add c added ∷ [])
        × (s2.call.call_id ≡ some e)
        × (sent3 ≡ sends_hangup e ∷ [])
        × (s3.call ≡ idle_call)
        × (reaction.1 ≡ to_room (user_room added) (call_ended e ended) ∷ [])
        × (w'.redis.hash (call_key e) ≡ [])
        × (left ≡ ok [])
        × (w'.redis.hash (call_key c) ≡ w.redis.hash (call_key c))
        × (field "state" (w'.redis.hash (call_key c)) ≡ "ACTIVE")
unfolding step add_to_call emit_call reset on_accepted on_call_hangup notify_ended
added_hangup-keeps s user c e added mode livekit w hs hv hc tc te n hf ts ha hk ho =
    let u = user.user_id in
    let d = (run (hangup e u) w.redis).1 in
    let w1 : World = record w { redis = d } in
    let h = run-answer (hangup e u) (λ ended. (forgot user, notify_ended ended)) w.redis in
    let leaves =
      λ (x : Reaction × Dataset). serve (handle_disconnect x.0.0) (record w { redis = x.1 }) in
    let q = ap leaves h ∙ quiet_disconnect user w1 in
    let g = hangup_ends e u w.redis ts ha hk in
    let kept =
      ap (λ x. x.1.redis.hash (call_key c)) q
      ∙ mark_offline-hash u c d
      ∙ hangup_other e c u w.redis n in
    (
      adds s c added hs hv hc tc,
      refl,
      hangs_up s e mode livekit hs te,
      refl,
      ap (λ x. x.0.1) h
          ∙ ap notify_ended g.0
          ∙ ap (λ o. to_room (user_room o) (call_ended e ended) ∷ []) ho,
      ap (λ x. x.1.redis.hash (call_key e)) q ∙ mark_offline-hash u e d ∙ g.1,
      ap (λ x. x.0) q,
      kept,
      ap (field "state") kept ∙ hf,
    )
