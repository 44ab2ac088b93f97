-- ===== src/Web/Screen/Invariant.antt =====
-- What holds of the screen between any two events: apps/web/lib/call-context.tsx.
use vertxing.Prelude.{◌≡◌, true, List, [], ◌∷◌, arith, is_some}
use vertxing.Web.Screen.{
  idle_call, Screen, Input, is_idle, is_active, is_ringing, step, run_screen, on_incoming,
  on_ringing, on_accepted, on_ended, on_failed, call_user, reset, flash, accept_link,
}

-- The provider has last started the ringtone, and not stopped it since, only while a call rings; an
-- idle screen is the idle state and nothing else; a call has its media credentials exactly when it is
-- active, and then an id.
pub record IsSound (s : Screen) : Type 0 where
  pub quiet : s.ring_started ≡ true → is_ringing s.call.status ≡ true
  pub blank : is_idle s.call.status ≡ true → s.call ≡ idle_call
  pub media : is_some s.call.livekit ≡ is_active s.call.status
  pub named : is_active s.call.status ≡ true → is_some s.call.call_id ≡ true

step-IsSound : (s : Screen) (i : Input) → IsSound s → IsSound (step s i).0
unfolding step on_incoming on_ringing on_accepted on_ended on_failed call_user reset flash
    accept_link
step-IsSound s i h = ground arith

-- Whatever happens, in whatever order, from a sound screen: unless a call rings, every start
-- of the ringtone has been followed by a stop (a start that still awaits the audio may sound after it);
-- an idle screen is blank; and there are media credentials exactly when a call is active, which then
-- has an id.
pub run_screen-IsSound : (s : Screen) (is : List Input) → IsSound s → IsSound (run_screen s is)
unfolding run_screen
run_screen-IsSound s [] h = h
run_screen-IsSound s (i ∷ is) h = run_screen-IsSound (step s i).0 is (step-IsSound s i h)
