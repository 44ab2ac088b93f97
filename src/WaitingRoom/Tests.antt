-- ===== src/WaitingRoom/Tests.antt =====
-- The theorems on the waiting room at concrete rooms: waiting-room.service.ts, under
-- apps/api/src/modules/meetings.
use vertxing.Prelude.{◌≡◌, refl, true, false, ◌&&◌, none, [], ◌∷◌, ◌==◌, if◌then◌else◌}
use vertxing.Redis.Dataset.{Dataset, answer, has}
use vertxing.Redis.Prog.{run}
use vertxing.Redis.Service.{set_has}
use vertxing.WaitingRoom.{is_admitted, is_denied, clear_room, admitted_key, denied_key}
use vertxing.WaitingRoom.Laws.{
  knocks, lets_in, turns_away, kicks, standing, decide, decided_of, decide-decided,
}
use vertxing.WaitingRoom.History.{
  run_decisions, all_decided, run_decisions-all_decided, never_let_in, admitted-denied_exclusive,
  kicked_stays_out, clear_room_forgets,
}

-- Gus was let into room r, and Ida waits.
abbrev lobby : Dataset
lobby = record {
  text = λ k. none;
  counter = λ k. none;
  hash = λ k. if k == "waiting:room:r" then ("ida", "Ida") ∷ [] else [];
  members = λ k. if k == "admitted:room:r" then "gus" ∷ [] else [];
  ttl = λ k. none;
}

decide-decided_example :
    standing "r" "gus" (run (decide "r" "gus" kicks) lobby).1
    ≡ decided_of ("gus" == "gus") kicks (standing "r" "gus" lobby)
decide-decided_example = decide-decided "r" "gus" "gus" kicks lobby

run_decisions-all_decided_example :
    standing "r" "ida"
      (run_decisions "r" (("ida", lets_in) ∷ ("gus", kicks) ∷ ("ida", turns_away) ∷ []) lobby)
    ≡ all_decided "ida"
        (("ida", lets_in) ∷ ("gus", kicks) ∷ ("ida", turns_away) ∷ [])
        (standing "r" "ida" lobby)
run_decisions-all_decided_example =
    run_decisions-all_decided "r" "ida"
      (("ida", lets_in) ∷ ("gus", kicks) ∷ ("ida", turns_away) ∷ []) lobby

admitted-denied_exclusive_example :
    ((run
        (is_admitted "r" "gus")
        (run_decisions "r" (("gus", kicks) ∷ ("gus", lets_in) ∷ []) lobby)).0
      && (run
          (is_denied "r" "gus")
          (run_decisions "r" (("gus", kicks) ∷ ("gus", lets_in) ∷ []) lobby)).0)
    ≡ false
unfolding is_admitted is_denied set_has answer has admitted_key denied_key
admitted-denied_exclusive_example =
    admitted-denied_exclusive "r" "gus" (("gus", kicks) ∷ ("gus", lets_in) ∷ []) lobby refl

kicked_stays_out_example :
    ((run (is_denied "r" "gus") (
        run_decisions "r" (("gus", kicks) ∷ ("gus", knocks "Gus") ∷ ("ida", lets_in) ∷ []) lobby)).0
      ≡ true)
    × ((run (is_admitted "r" "gus") (
          run_decisions "r"
            (("gus", kicks) ∷ ("gus", knocks "Gus") ∷ ("ida", lets_in) ∷ [])
            lobby)).0
        ≡ false)
unfolding never_let_in
kicked_stays_out_example =
    kicked_stays_out "r" "gus" (("gus", knocks "Gus") ∷ ("ida", lets_in) ∷ []) lobby refl

clear_room_forgets_example :
    standing "r" "gus" (run (clear_room "r") lobby).1
    ≡ record { waiting = false; admitted = false; denied = false }
clear_room_forgets_example = clear_room_forgets "r" "gus" lobby
