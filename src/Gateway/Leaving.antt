-- ===== src/Gateway/Leaving.antt =====
-- What a socket that goes away leaves behind: handleDisconnect of
-- apps/api/src/modules/realtime/events.gateway.ts.
use vertxing.Keys.{tag_ne}
use vertxing.Prelude.{
  String, ◌≡◌, ◌∙◌, refl, sym, ap, Bool, true, false, ◌&&◌, ◌||◌, none, some, [], ◌∷◌, ◌==◌, arith,
  if◌then◌else◌, eq_refl, lookup, Bool-cases, inl, inr, ne-eq_false,
}
use vertxing.Http.{ok}
use vertxing.Prelude.Int.{is_nonpositive}
use vertxing.Redis.Dataset.{Dataset, answer, decr}
use vertxing.Redis.Prog.{run}
use vertxing.Redis.Laws.{hash-set_hash, hash-srem}
use vertxing.Redis.Service.{
  hash_get_all, compare_and_set_hash_field, delete, delete_if_equals, remove_from_set, decrement,
}
use vertxing.Call.Types.{
  CallEndReason, cancelled, ended, CallParty, CallMeta, field, is_truthy, call_key,
  presence_count_key, online_key,
}
use vertxing.Call.Presence.{mark_offline}
use vertxing.Call.Ending.{drop, terminate_ringing, hangup}
use vertxing.Meetings.World.{World, ret, lift, serve, ◌>>=◌}
use vertxing.Meetings.Sequence.{serve-lift, goes_on}
use vertxing.Gateway.{SocketData, to_room, call_ended, user_room, notify_ended}
use vertxing.Gateway.Connection.{handle_disconnect, withdraw, tear_down}
use vertxing.Gateway.Teardown.{other_party}

call-presence_count : (c u : String) → (presence_count_key u == call_key c) ≡ false
unfolding call_key presence_count_key
call-presence_count c u =
    ne-eq_false _ _ (λ e. tag_ne "call:" "prese" "ncecount:" c u refl refl (sym e))

call-online : (c : String) → (online_key == call_key c) ≡ false
unfolding call_key
call-online c = ne-eq_false _ _ (λ e. tag_ne "call:" "prese" "nce:" c "online" refl refl (sym e))

pub mark_offline-hash :
    (u c : String) (d : Dataset)
    → (run (mark_offline u) d).1.hash (call_key c) ≡ d.hash (call_key c)
unfolding mark_offline decrement remove_from_set delete answer
mark_offline-hash u c d =
    let (n, d1) = answer (decr (presence_count_key u)) d in
    elim (Bool-cases (is_nonpositive n)) [
      | inl e ↦ ground (
        arith,
        hash-srem online_key (call_key c) u d1 (call-online c),
        call-presence_count c u,
        call-online c,
      )
      | inr e ↦ ground arith
    ]

-- Whether the call of a socket that carries it is taken down with the socket of `u`: the caller's
-- socket carries it while it rings, both parties' carry it once it is active.
unfoldable pub takes_down : String → CallMeta → Bool
takes_down u meta =
    if field "callerId" meta == u
    then field "state" meta == "ACTIVE" || field "state" meta == "RINGING"
    else field "calleeId" meta == u && field "state" meta == "ACTIVE"

abbrev pub drop_reason : String → CallMeta → CallEndReason
drop_reason u meta = if field "state" meta == "ACTIVE" then ended else cancelled

module _ (u c : String) (d : Dataset) where
  abbrev meta : CallMeta
  meta = d.hash (call_key c)

  pub record Dropped : Type 0 where
    pub result :
        (run (drop c u) d).0
        ≡ some (record { call_id = c; other_id = other_party u meta; reason = drop_reason u meta })
    pub removed : (run (drop c u) d).1.hash (call_key c) ≡ []

  drop-Dropped : is_truthy (lookup "state" meta) ≡ true → takes_down u meta ≡ true → Dropped
  unfolding drop takes_down hangup terminate_ringing compare_and_set_hash_field hash_get_all answer
      delete delete_if_equals
  drop-Dropped t h = elim (Bool-cases (field "state" meta == "ACTIVE")) [
    | inl a ↦ record {
      result = ground (arith, hash-set_hash (call_key c) "state" "ENDED" meta d);
      removed =
          ground (arith, eq_refl (call_key c), hash-set_hash (call_key c) "state" "ENDED" meta d);
    }
    | inr a ↦ record {
      result = ground (arith, hash-set_hash (call_key c) "state" "CANCELLED" meta d);
      removed =
          ground
            (arith, eq_refl (call_key c), hash-set_hash (call_key c) "state" "CANCELLED" meta d);
    }
  ]

tear_down-call :
    (u c : String) (w : World)
    → is_truthy (some c) ≡ true
    → serve (tear_down u (some c)) w ≡ (
      ok (notify_ended (run (drop c u) w.redis).0),
      record w { redis = (run (drop c u) w.redis).1 },
    )
unfolding tear_down
tear_down-call u c w t =
    let tells = lift (drop c u) >>= λ ended. ret (notify_ended ended) in
    ap (λ b. serve (if b then tells else ret []) w) t
    ∙ goes_on (lift (drop c u)) (λ ended. ret (notify_ended ended)) w _ _ (serve-lift (drop c u) w)

abbrev pub in_call : CallParty → String → SocketData
in_call user c = record { user = some user; knocking_room = none; call_id = some c }

disconnect-drop :
    (user : CallParty) (c : String) (w : World)
    → is_truthy (some c) ≡ true
    → let d = (run (mark_offline user.user_id) w.redis).1 in
      serve (handle_disconnect (in_call user c)) w ≡ (
        ok (notify_ended (run (drop c user.user_id) d).0),
        record w { redis = (run (drop c user.user_id) d).1 },
      )
unfolding handle_disconnect withdraw
disconnect-drop user c w t =
    let u = user.user_id in
    let w1 : World = record w { redis = (run (mark_offline u) w.redis).1 } in
    goes_on (lift (mark_offline u)) (λ _. tear_down u (some c) >>= λ es. ret es) w w1 tt
      (serve-lift (mark_offline u) w)
    ∙ goes_on (tear_down u (some c)) (λ es. ret es) w1 _ _ (tear_down-call u c w1 t)

-- When a socket goes away that carries a call (its `callId` is the call's) and whose user was not
-- knocking, while the call is active and the user one of its parties, or it rings and the user is its
-- caller, then the other party and nobody else is told that the call has ended, as ended or as
-- cancelled, and Redis has no such call.
pub disconnect-ends :
    (user : CallParty) (c : String) (w : World)
    → is_truthy (some c) ≡ true
    → is_truthy (lookup "state" (w.redis.hash (call_key c))) ≡ true
    → takes_down user.user_id (w.redis.hash (call_key c)) ≡ true
    → let meta = w.redis.hash (call_key c) in
      let (result, w') = serve (handle_disconnect (in_call user c)) w in
      (result
        ≡ ok (
            to_room
              (user_room (other_party user.user_id meta))
              (call_ended c (drop_reason user.user_id meta))
            ∷ []))
      × (w'.redis.hash (call_key c) ≡ [])
unfolding notify_ended
disconnect-ends user c w t ts h =
    let u = user.user_id in
    let d = (run (mark_offline u) w.redis).1 in
    let e = mark_offline-hash u c w.redis in
    let gone =
      drop-Dropped u c d (ap (λ meta. is_truthy (lookup "state" meta)) e ∙ ts)
        (ap (takes_down u) e ∙ h) in
    (
      ap (λ x. x.0) (disconnect-drop user c w t)
          ∙ ap (λ o. ok (notify_ended o)) gone.result
          ∙ ap
              (λ meta.
                ok (
                  to_room (user_room (other_party u meta)) (call_ended c (drop_reason u meta))
                  ∷ []))
              e,
      ap (λ x. x.1.redis.hash (call_key c)) (disconnect-drop user c w t) ∙ gone.removed,
    )
