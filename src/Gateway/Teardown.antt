-- ===== src/Gateway/Teardown.antt =====
-- How the end of a call reaches the other party: the handlers of
-- apps/api/src/modules/realtime/events.gateway.ts, with the screens of apps/web/lib/call-context.tsx.
use vertxing.Prelude.{
  String, ◌≡◌, ◌∙◌, ap, Bool, true, ◌&&◌, ◌||◌, some, [], ◌∷◌, ◌==◌, arith, if◌then◌else◌, eq_refl,
  lookup,
}
use vertxing.Redis.Dataset.{Dataset, answer}
use vertxing.Redis.Prog.{Prog, run}
use vertxing.Redis.Laws.{hash-set_hash}
use vertxing.Redis.Service.{hash_get_all, compare_and_set_hash_field, delete, delete_if_equals}
use vertxing.Call.Types.{
  CallEndReason, declined, cancelled, ended, CallParty, CallMeta, field, is_truthy, call_key,
}
use vertxing.Call.Ending.{decline, cancel, hangup}
use vertxing.Gateway.{SocketData, to_room, call_ended, Reaction, user_room, notify_ended}
use vertxing.Gateway.Calls.{on_call_decline, on_call_cancel, on_call_hangup}
use vertxing.Gateway.Delivery.{hears}
use vertxing.Web.Screen.{
  Screen, idle_call, step, presses_decline, presses_cancel, presses_hangup, Input, Sent,
  sends_decline, sends_cancel, sends_hangup, emit_call, on_ended, reset, flash,
}

-- The three buttons that end a call.
pub data Button : Type 0 where
  decline_button cancel_button hangup_button : Button

abbrev pub press : Button → Input
press decline_button = presses_decline
press cancel_button = presses_cancel
press hangup_button = presses_hangup

unfoldable pub on_button : Button → SocketData → CallParty → String → Prog Reaction
unfolding on_call_decline on_call_cancel on_call_hangup
on_button decline_button client user c = on_call_decline client user c
on_button cancel_button client user c = on_call_cancel client user c
on_button hangup_button client user c = on_call_hangup client user c

-- Who may end a call by which button, and in which state.
unfoldable pub may_end : Button → String → CallMeta → Bool
may_end decline_button u meta = field "state" meta == "RINGING" && field "calleeId" meta == u
may_end cancel_button u meta = field "state" meta == "RINGING" && field "callerId" meta == u
may_end hangup_button u meta =
    field "state" meta == "ACTIVE" && (field "callerId" meta == u || field "calleeId" meta == u)

abbrev pub other_party : String → CallMeta → String
other_party u meta =
    if field "callerId" meta == u then field "calleeId" meta else field "callerId" meta

abbrev pub end_reason : Button → CallEndReason
end_reason decline_button = declined
end_reason cancel_button = cancelled
end_reason hangup_button = ended

module _ (client : SocketData) (user : CallParty) (c : String) (d : Dataset) where
  abbrev meta : CallMeta
  meta = d.hash (call_key c)

  -- What comes of a button pressed by somebody entitled to it: the other party and nobody else is
  -- told, and the call is gone.
  pub record Ended (b : Button) : Type 0 where
    pub tells :
        (run (on_button b client user c) d).0.1
        ≡ to_room (user_room (other_party user.user_id meta)) (call_ended c (end_reason b)) ∷ []
    pub removes : (run (on_button b client user c) d).1.hash (call_key c) ≡ []

  on_button-Ended :
      (b : Button)
      → is_truthy (lookup "state" meta) ≡ true
      → may_end b user.user_id meta ≡ true
      → Ended b
  unfolding on_button may_end decline cancel hangup compare_and_set_hash_field hash_get_all answer
      delete delete_if_equals notify_ended
  on_button-Ended decline_button t h = record {
    tells = ground (arith, hash-set_hash (call_key c) "state" "DECLINED" meta d);
    removes =
        ground (arith, eq_refl (call_key c), hash-set_hash (call_key c) "state" "DECLINED" meta d);
  }
  on_button-Ended cancel_button t h = record {
    tells = ground (arith, hash-set_hash (call_key c) "state" "CANCELLED" meta d);
    removes =
        ground (arith, eq_refl (call_key c), hash-set_hash (call_key c) "state" "CANCELLED" meta d);
  }
  on_button-Ended hangup_button t h = record {
    tells = ground (arith, hash-set_hash (call_key c) "state" "ENDED" meta d);
    removes =
        ground (arith, eq_refl (call_key c), hash-set_hash (call_key c) "state" "ENDED" meta d);
  }

hears-ended :
    (r c : String) (reason : CallEndReason) (s : Screen)
    → s.call.call_id ≡ some c
    → (hears r (to_room r (call_ended c reason) ∷ []) s).call ≡ idle_call
unfolding hears step on_ended reset flash
hears-ended r c reason s h = ground (arith, eq_refl r, eq_refl c)

abbrev pub message : Button → String → Sent
message decline_button c = sends_decline c
message cancel_button c = sends_cancel c
message hangup_button c = sends_hangup c

pressed :
    (b : Button) (s : Screen) (c : String)
    → s.call.call_id ≡ some c
    → s.has_socket ≡ true
    → is_truthy (some c) ≡ true
    → ((step s (press b)).1 ≡ message b c ∷ []) × ((step s (press b)).0.call ≡ idle_call)
unfolding step emit_call reset
pressed decline_button s c h k t = ground arith
pressed cancel_button s c h k t = ground arith
pressed hangup_button s c h k t = ground arith

-- When a party who may do so declines, cancels or hangs up the call on the screen, exactly that
-- message is sent and the screen is idle; once the server has handled it, the other party's screen,
-- which shows the call, is idle too, and Redis has no such call.
pub button_ends_both :
    (b : Button) (client : SocketData) (user : CallParty) (c : String) (d : Dataset)
    (mine theirs : Screen)
    → is_truthy (some c) ≡ true
    → is_truthy (lookup "state" (d.hash (call_key c))) ≡ true
    → may_end b user.user_id (d.hash (call_key c)) ≡ true
    → mine.call.call_id ≡ some c
    → mine.has_socket ≡ true
    → theirs.call.call_id ≡ some c
    → let (reaction, d') = run (on_button b client user c) d in
      let room = user_room (other_party user.user_id (d.hash (call_key c))) in
      ((step mine (press b)).1 ≡ message b c ∷ [])
      × ((step mine (press b)).0.call ≡ idle_call)
      × ((hears room reaction.1 theirs).call ≡ idle_call)
      × (d'.hash (call_key c) ≡ [])
button_ends_both b client user c d mine theirs t ts h hm hs ht =
    let room = user_room (other_party user.user_id (d.hash (call_key c))) in
    let e = on_button-Ended client user c d b ts h in
    let (p, q) = pressed b mine c hm hs t in
    (
      p,
      q,
      ap (λ es. (hears room es theirs).call) e.tells ∙ hears-ended room c (end_reason b) theirs ht,
      e.removes,
    )
