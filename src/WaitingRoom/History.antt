-- ===== src/WaitingRoom/History.antt =====
-- A room over any sequence of knocks and decisions: waiting-room.service.ts.
use vertxing.Prelude.{
  String, ◌≡◌, refl, Bool, true, false, not, ◌&&◌, List, [], ◌∷◌, ◌==◌, arith, ap, eq_refl, eq_sym,
  lookup, ◌∙◌,
}
use vertxing.Redis.Dataset.{Dataset, answer, has}
use vertxing.Redis.Prog.{run}
use vertxing.Redis.Service.{delete, set_has}
use vertxing.WaitingRoom.{waiting_key, admitted_key, denied_key, is_admitted, is_denied, clear_room}
use vertxing.WaitingRoom.Laws.{
  waiting-admitted, waiting-denied, admitted-denied, Standing, standing, Decision, knocks, gives_up,
  lets_in, turns_away, kicks, decide, decided, decided_of, decide-decided,
}

-- Decisions on identities of one room, in the order in which they run.
unfoldable pub run_decisions : String → List (String × Decision) → Dataset → Dataset
run_decisions r [] d = d
run_decisions r ((i, c) ∷ cs) d = run_decisions r cs (run (decide r i c) d).1

-- The same decisions on one identity's standing.
unfoldable pub all_decided : String → List (String × Decision) → Standing → Standing
all_decided i [] s = s
all_decided i ((j, c) ∷ cs) s = all_decided i cs (decided_of (j == i) c s)

-- After any decisions on any identities of a room, an identity's standing is what the decisions on
-- that identity make of its first standing, in their order.
pub run_decisions-all_decided :
    (r i : String) (cs : List (String × Decision)) (d : Dataset)
    → standing r i (run_decisions r cs d) ≡ all_decided i cs (standing r i d)
unfolding run_decisions all_decided
run_decisions-all_decided r i [] d = refl
run_decisions-all_decided r i ((j, c) ∷ cs) d =
    rw (run_decisions-all_decided r i cs (run (decide r j c) d).1, decide-decided r i j c d)

-- No identity is both let in and kept out.
abbrev exclusive : Standing → Bool
exclusive s = not (s.admitted && s.denied)

decided_of-exclusive :
    (b : Bool) (c : Decision) (s : Standing)
    → exclusive s ≡ true
    → exclusive (decided_of b c s) ≡ true
unfolding decided_of decided
decided_of-exclusive false c s h = h
decided_of-exclusive true (knocks name) s h = h
decided_of-exclusive true gives_up s h = h
decided_of-exclusive true lets_in s h = refl
decided_of-exclusive true turns_away s h = refl
decided_of-exclusive true kicks s h = refl

-- An identity that is not both admitted and denied never becomes so, whatever is decided.
pub admitted-denied_exclusive :
    (r i : String) (cs : List (String × Decision)) (d : Dataset)
    → ((run (is_admitted r i) d).0 && (run (is_denied r i) d).0) ≡ false
    → ((run (is_admitted r i) (run_decisions r cs d)).0
        && (run (is_denied r i) (run_decisions r cs d)).0)
      ≡ false
unfolding run_decisions standing is_admitted is_denied set_has answer
admitted-denied_exclusive r i [] d h = h
admitted-denied_exclusive r i ((j, c) ∷ cs) d h =
    let d1 : Dataset = (run (decide r j c) d).1 in
    admitted-denied_exclusive r i cs d1
      (ground (arith, decide-decided r i j c d, decided_of-exclusive (j == i) c (standing r i d)))

-- `lets_in` of this identity.
abbrev is_let_in : String → String × Decision → Bool
is_let_in i (j, lets_in) = j == i
is_let_in i (j, _) = false

unfoldable pub never_let_in : String → List (String × Decision) → Bool
never_let_in i [] = true
never_let_in i (e ∷ cs) = not (is_let_in i e) && never_let_in i cs

stays_out :
    (i j : String) (c : Decision) (s : Standing)
    → is_let_in i (j, c) ≡ false
    → s.denied ≡ true
    → (decided_of (j == i) c s).denied ≡ true
unfolding decided_of decided
stays_out i j (knocks name) s n h = ground arith
stays_out i j gives_up s n h = ground arith
stays_out i j lets_in s n h = ground arith
stays_out i j turns_away s n h = ground arith
stays_out i j kicks s n h = ground arith

stays_denied :
    (i : String) (cs : List (String × Decision)) (s : Standing)
    → never_let_in i cs ≡ true
    → s.denied ≡ true
    → (all_decided i cs s).denied ≡ true
unfolding never_let_in all_decided
stays_denied i [] s n h = h
stays_denied i ((j, c) ∷ cs) s n h =
    stays_denied i cs (decided_of (j == i) c s) (ground arith) (stays_out i j c s (ground arith) h)

-- A guest who was kicked is on the blocklist and not admitted, after any further decisions on any
-- identities of the room, as long as the host does not let that guest in again. No time passes here:
-- the blocklist itself expires four hours after the last kick.
pub kicked_stays_out :
    (r i : String) (cs : List (String × Decision)) (d : Dataset)
    → never_let_in i cs ≡ true
    → ((run (is_denied r i) (run_decisions r ((i, kicks) ∷ cs) d)).0 ≡ true)
      × ((run (is_admitted r i) (run_decisions r ((i, kicks) ∷ cs) d)).0 ≡ false)
unfolding run_decisions standing is_admitted is_denied set_has answer decided_of decided
kicked_stays_out r i cs d n =
    let d1 : Dataset = (run (decide r i kicks) d).1 in
    let d2 : Dataset = run_decisions r cs d1 in
    let first : standing r i d1 ≡ decided kicks (standing r i d) =
      ground (arith, decide-decided r i i kicks d, eq_refl i) in
    let out : (standing r i d2).denied ≡ true =
      ap (λ s. s.denied) (run_decisions-all_decided r i cs d1)
      ∙ stays_denied i cs (standing r i d1) n (ap (λ s. s.denied) first) in
    let apart = admitted-denied_exclusive r i cs d1 (ground (arith, first)) in ground arith

-- Clearing a room leaves nobody waiting, admitted or denied in it.
pub clear_room_forgets :
    (r i : String) (d : Dataset)
    → standing r i (run (clear_room r) d).1
      ≡ record { waiting = false; admitted = false; denied = false }
unfolding standing clear_room delete answer lookup has
clear_room_forgets r i d = ground (
  arith,
  eq_refl (waiting_key r),
  eq_refl (admitted_key r),
  eq_refl (denied_key r),
  waiting-admitted r r,
  waiting-denied r r,
  admitted-denied r r,
  eq_sym (admitted_key r) (waiting_key r),
  eq_sym (denied_key r) (waiting_key r),
  eq_sym (denied_key r) (admitted_key r),
)
