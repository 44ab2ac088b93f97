-- ===== src/Web/Screen/Behaviour.antt =====
-- How an event changes the call on the screen: apps/web/lib/call-context.tsx.
use vertxing.Prelude.{
  String, ◌≡◌, refl, Bool, true, false, not, ◌&&◌, none, some, List, [], ◌∷◌, arith, ◌==◌, ap, ◌∙◌,
}
use vertxing.Call.Types.{CallFailureReason, is_truthy}
use vertxing.Web.Screen.{
  active, Peer, Livekit, idle_call, Screen, sends_decline, sends_add, sends_hangup, Input, step,
  run_screen, got_incoming, got_accepted, got_ended, got_failed, presses_decline, presses_cancel,
  presses_hangup, adds_to_call, opens_accept_link, on_incoming, on_ringing, on_accepted, on_ended,
  on_failed, call_user, reset, flash, accept_link, emit_call, add_to_call,
}

-- The inputs that may change what an active call `c` shows: the answer to a call, a failure, the end
-- of `c`, a press that leaves it, a link that accepts.
abbrev pub may_change : String → Input → Bool
may_change c (got_accepted _ _ _) = true
may_change c (got_failed _) = true
may_change c (got_ended d _) = c == d
may_change c presses_decline = true
may_change c presses_cancel = true
may_change c presses_hangup = true
may_change c (opens_accept_link _ _ _) = true
may_change c _ = false

pub active_stays :
    (s : Screen) (c : String) (i : Input)
    → s.call.status ≡ active
    → s.call.call_id ≡ some c
    → is_truthy (some c) ≡ true
    → may_change c i ≡ false
    → (step s i).0.call ≡ s.call
unfolding step on_incoming on_ringing on_ended call_user reset flash accept_link
active_stays s c i ha hc ht hi = ground arith

-- None of those inputs.
abbrev pub keeps : String → List Input → Bool
keeps c [] = true
keeps c (i ∷ is) = not (may_change c i) && keeps c is

-- A screen that shows an active call shows it unchanged after any sequence of calls that ring or of
-- other calls that end, presses that leave no call, links that decline and timers. What is excluded is
-- that any call is answered or any attempt fails, whichever call it is about, that the shown call ends,
-- that the user leaves it, and that the user opens a link that accepts a call.
pub active_stays-run :
    (s : Screen) (c : String) (is : List Input)
    → s.call.status ≡ active
    → s.call.call_id ≡ some c
    → is_truthy (some c) ≡ true
    → keeps c is ≡ true
    → (run_screen s is).call ≡ s.call
unfolding run_screen
active_stays-run s c [] ha hc ht hk = refl
active_stays-run s c (i ∷ is) ha hc ht hk =
    let e = active_stays s c i ha hc ht (ground arith) in
    active_stays-run (step s i).0 c is (ap (λ x. x.status) e ∙ ha) (ap (λ x. x.call_id) e ∙ hc) ht
      (ground arith)
    ∙ e

-- From an idle screen, an answer to a call that this screen does not show, as every other tab of the
-- caller gets, makes it active without a peer; from then on it declines every call that rings, and
-- shows nothing of it.
pub stray_accepted-deaf :
    (s : Screen) (c d mode mode' : String) (livekit : Livekit) (from : Peer)
    → s.call ≡ idle_call
    → let s' = on_accepted c mode livekit s in
      (s'.call.peer ≡ none) × (step s' (got_incoming d from mode') ≡ (s', sends_decline d ∷ []))
unfolding step on_incoming on_accepted
stray_accepted-deaf s c d mode mode' livekit from h = ground arith

-- A failure that answers an active participant's request to add somebody takes the participant's own
-- call off the screen and clears the notion of it, while nothing is sent: the server's call goes on.
pub failed-forgets :
    (s : Screen) (callee_id : String) (reason : CallFailureReason) (c : String)
    → s.call.status ≡ active
    → s.call.call_id ≡ some c
    → is_truthy (some c) ≡ true
    → s.has_socket ≡ true
    → let (s1, sent) = step s (adds_to_call callee_id) in
      let (s2, sent') = step s1 (got_failed reason) in
      (sent ≡ sends_add c callee_id ∷ [])
      × (s2.call ≡ idle_call)
      × (sent' ≡ [])
      × (emit_call sends_hangup s2 ≡ [])
unfolding step on_failed reset flash emit_call add_to_call
failed-forgets s callee_id reason c ha hc ht hs = ground arith
