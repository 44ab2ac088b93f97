-- ===== src/Gateway/Signalling.antt =====
-- A call from end to end: the handlers of apps/api/src/modules/realtime/events.gateway.ts with the
-- screens of apps/web/lib/call-context.tsx.
use text.Mathlib.TextLemmas.{append_cancel_left}
use vertxing.Prelude.{
  String, ◌≡◌, ◌≢◌, ◌∙◌, refl, ap, true, false, none, some, [], ◌∷◌, ◌==◌, arith, eq_refl, lookup,
  ne-eq_false,
}
use vertxing.Redis.Dataset.{Dataset, answer}
use vertxing.Redis.Prog.{Prog, ret, send, run, ◌>>=◌}
use vertxing.Call.Types.{CallParty, CallMeta, Services, field, is_truthy, call_key}
use vertxing.Call.Placing.{accept, accepted_with}
use vertxing.Call.Accepting.{accept-may_accept}
use vertxing.Gateway.{SocketData, Outside, to_room, to_self, call_accepted, user_room}
use vertxing.Gateway.Calls.{on_call_accept, accept_reaction}
use vertxing.Gateway.Delivery.{hears, hears_own}
use vertxing.Web.Screen.{
  Screen, Livekit, Peer, idle_call, active, step, on_accepted, calls_user, presses_cancel,
  got_ringing, got_accepted, sends_invite, emit_call, reset, call_user, on_ringing,
}

-- A call on display that has been answered.
abbrev pub connected : String → String → Livekit → Screen → Screen
connected c mode livekit s = record s {
  call = record s.call { status = active; call_id = some c; mode = mode; livekit = some livekit };
  ring_started = false;
}

on_accepted-connected :
    (c mode : String) (livekit : Livekit) (s : Screen)
    → on_accepted c mode livekit s ≡ connected c mode livekit s
unfolding on_accepted
on_accepted-connected c mode livekit s = refl

module _ (services : Services) (c : String) (callee : CallParty) (d : Dataset) where
  abbrev meta : CallMeta
  meta = d.hash (call_key c)

  may_accept-accepted :
      is_truthy (lookup "state" meta) ≡ true
      → (field "calleeId" meta == callee.user_id) ≡ true
      → (field "state" meta == "RINGING") ≡ true
      → (run (accept services c callee) d).0 ≡ accepted_with services c callee meta
  may_accept-accepted t k r = accept-may_accept services c callee d ∙ ground arith

-- The answer of code that ends in a function of what it got.
pub run-answer {ℓ κ} :
    {A : Type ℓ} {B : Type κ} (p : Prog A) (f : A → B) (d : Dataset)
    → run (p >>= λ a. ret (f a)) d ≡ (f (run p d).0, (run p d).1)
run-answer (ret a) f d = refl
run-answer (send m k) f d = let (r, d') = answer m d in run-answer (k r) f d'

hears_two :
    (mine_room their_room c mode url t1 t2 : String) (s : Screen)
    → (their_room == mine_room) ≡ false
    → let es =
        to_self (call_accepted c mode url t1)
        ∷ to_room their_room (call_accepted c mode url t2)
        ∷ [] in
      (hears_own mine_room es s ≡ connected c mode record { url = url; token = t1 } s)
      × (hears their_room es s ≡ connected c mode record { url = url; token = t2 } s)
unfolding hears hears_own step on_accepted
hears_two mine_room their_room c mode url t1 t2 s n =
    (ground arith, ground (arith, eq_refl their_room))

user_room-injective : (u v : String) → u ≢ v → (user_room u == user_room v) ≡ false
unfolding user_room
user_room-injective u v n = ne-eq_false _ _ (λ e. n (append_cancel_left "user:" u v e))

-- When its callee accepts a ringing call, the callee's screen and the caller's both show it as
-- active, in the same mode, each with a token of its own for the call's one room; and the callee's
-- socket carries the call.
pub accept_connects :
    (out : Outside) (client : SocketData) (callee : CallParty) (c : String) (d : Dataset)
    (mine theirs : Screen)
    → let meta = d.hash (call_key c) in
      is_truthy (lookup "state" meta) ≡ true
      → (field "calleeId" meta == callee.user_id) ≡ true
      → (field "state" meta == "RINGING") ≡ true
      → field "callerId" meta ≢ callee.user_id
      → let reaction = (run (on_call_accept out client callee c) d).0 in
        let token = out.services.create_access_token (field "roomName" meta) in
        let mode = field "mode" meta in
        (hears_own (user_room callee.user_id) reaction.1 mine
          ≡ connected c mode
              record { url = out.services.server_url; token = token callee.user_id callee.name }
              mine)
        × (hears (user_room (field "callerId" meta)) reaction.1 theirs
            ≡ connected c mode
                record {
                  url = out.services.server_url;
                  token = token (field "callerId" meta) (field "callerName" meta);
                }
                theirs)
        × (reaction.0.call_id ≡ some c)
unfolding on_call_accept accept_reaction
accept_connects out client callee c d mine theirs t k r n =
    let meta = d.hash (call_key c) in
    let e =
      ap (λ x. x.0) (run-answer (accept out.services c callee) (accept_reaction client c) d)
      ∙ ap (accept_reaction client c) (may_accept-accepted out.services c callee d t k r) in
    let h = λ (s : Screen).
      hears_two (user_room callee.user_id) (user_room (field "callerId" meta)) c (field "mode" meta)
        out.services.server_url _ _ s (user_room-injective _ _ n) in
    (
      ap (λ x. hears_own (user_room callee.user_id) x.1 mine) e ∙ (h mine).0,
      ap (λ x. hears (user_room (field "callerId" meta)) x.1 theirs) e ∙ (h theirs).1,
      ap (λ x. x.0.call_id) e,
    )

-- A caller who cancels before the server's first answer sends no cancellation: the screen is idle and
-- ignores that the call rings, and when it is answered the screen shows it as active, without a peer.
pub early_cancel-connects :
    (s : Screen) (callee : Peer) (mode c mode' : String) (livekit : Livekit)
    → s.call ≡ idle_call
    → s.has_socket ≡ true
    → let (s1, sent1) = step s (calls_user callee mode) in
      let (s2, sent2) = step s1 presses_cancel in
      let (s3, sent3) = step s2 (got_ringing c) in
      let (s4, sent4) = step s3 (got_accepted c mode' livekit) in
      (sent1 ≡ sends_invite callee.id mode ∷ [])
      × (sent2 ≡ [])
      × (s3.call ≡ idle_call)
      × (sent3 ≡ [])
      × (s4.call.status ≡ active)
      × (s4.call.peer ≡ none)
unfolding step call_user emit_call reset on_ringing on_accepted
early_cancel-connects s callee mode c mode' livekit h k = ground arith
