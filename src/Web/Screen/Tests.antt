-- ===== src/Web/Screen/Tests.antt =====
-- The screen's theorems at concrete inputs.
use vertxing.Prelude.{◌≡◌, refl, true, false, none, some, List, [], ◌∷◌}
use vertxing.Call.Types.{declined, busy}
use vertxing.Web.Screen.{
  Screen, Peer, Livekit, Input, active, idle_call, first_screen, step, run_screen, calls_user,
  connects, got_incoming, got_ringing, got_accepted, got_ended, ring_time_over, got_failed,
  adds_to_call, sends_decline, sends_add, sends_hangup, emit_call, on_accepted,
}
use vertxing.Web.Screen.Invariant.{IsSound, run_screen-IsSound}
use vertxing.Web.Screen.Behaviour.{active_stays-run, stray_accepted-deaf, failed-forgets}

abbrev bob : Peer
bob = record { id = "b"; name = "Bob" }

abbrev carol : Peer
carol = record { id = "c"; name = "Carol" }

abbrev media : Livekit
media = record { url = "wss://sfu"; token = "t" }

-- A call placed and answered.
abbrev talking : Screen
talking = record {
  call = record {
    status = active;
    call_id = some "k";
    peer = some bob;
    mode = "VIDEO";
    livekit = some media;
  };
  ring_started = false;
  notice = none;
  has_socket = true;
}

abbrev dialled : List Input
dialled = connects ∷ calls_user bob "VIDEO" ∷ got_ringing "k" ∷ got_accepted "k" "VIDEO" media ∷ []

talks : run_screen first_screen dialled ≡ talking
unfolding run_screen step
talks = refl

first-IsSound : IsSound first_screen
first-IsSound = record { quiet = λ h. h; blank = λ _. refl; media = refl; named = λ h. h }

run_screen-IsSound_example : IsSound (run_screen first_screen dialled)
run_screen-IsSound_example = run_screen-IsSound first_screen dialled first-IsSound

abbrev noise : List Input
noise = got_incoming "x" carol "AUDIO" ∷ got_ended "x" declined ∷ ring_time_over ∷ []

active_stays-run_example : (run_screen talking noise).call ≡ talking.call
active_stays-run_example = active_stays-run talking "k" noise refl refl refl refl

stray_accepted-deaf_example :
    let s = on_accepted "k" "VIDEO" media first_screen in
    (s.call.peer ≡ none) × (step s (got_incoming "x" carol "AUDIO") ≡ (s, sends_decline "x" ∷ []))
stray_accepted-deaf_example =
    stray_accepted-deaf first_screen "k" "x" "VIDEO" "AUDIO" media carol refl

failed-forgets_example :
    let (s1, sent) = step talking (adds_to_call "c") in
    let (s2, sent') = step s1 (got_failed busy) in
    (sent ≡ sends_add "k" "c" ∷ [])
    × (s2.call ≡ idle_call)
    × (sent' ≡ [])
    × (emit_call sends_hangup s2 ≡ [])
failed-forgets_example = failed-forgets talking "c" busy "k" refl refl refl refl
