-- ===== src/Web/Ringtone/Overlap.antt =====
-- What happens when a ringtone is started or stopped before the earlier one has come to play:
-- apps/web/lib/ringtone.ts.
use vertxing.Prelude.{
  String, ◌≡◌, ◌≢◌, ◌<◌, Bool, true, false, ℕ, suc, none, some, Option, List, [], ◌∷◌, arith,
  if◌then◌else◌, ◌==◌, zero, Bool-cases, inl, inr, ap, ◌++◌,
}
use vertxing.Web.Ringtone.{
  Player, Sound, Input, starts, stops, previews, selects, resumed, loaded, load_fails,
  timeout_fires, same, clear, clear_held, stop_all, start_pattern, start_custom, play_resumed,
  play_by_id, play_loaded, get_ringtone_id, start, preview_ringtone, step, run_player, resume_first,
  finish_load, clear_timeout, is_due, find_pattern, patterns,
}

unfoldable pub is_sounding : ℕ → List Sound → Bool
is_sounding n [] = false
is_sounding n (s ∷ l) = let rest = is_sounding n l in if same n s.handle then true else rest

clear-other :
    (h n : ℕ) (l : List Sound) → h ≢ n → is_sounding n l ≡ true → is_sounding n (clear h l) ≡ true
unfolding clear is_sounding
clear-other h n [] ne e = e
clear-other h n (s ∷ l) ne e = elim (Bool-cases (same n s.handle)) [
  | inl y ↦ ground arith
  | inr y ↦ let ih = clear-other h n l ne (ground arith) in ground arith
]

-- The sound `n` plays and the module has lost its handle.
record IsLost (n : ℕ) (p : Player) : Type 0 where
  plays : is_sounding n p.sounds ≡ true
  old : n < p.next
  no_timer : p.loop_timer ≢ some n
  no_source : p.custom_source ≢ some n

clear_held-other :
    (o : Option ℕ) (n : ℕ) (l : List Sound)
    → o ≢ some n
    → is_sounding n l ≡ true
    → is_sounding n (clear_held o l) ≡ true
clear_held-other none n l ne e = e
clear_held-other (some h) n l ne e = clear-other h n l (λ q. ne (ap some q)) e

stop_all-IsLost : (n : ℕ) (p : Player) → IsLost n p → IsLost n (stop_all p)
unfolding stop_all
stop_all-IsLost n p h = record {
  plays =
      clear_held-other p.custom_source n (clear_held p.loop_timer p.sounds) h.no_source
        (clear_held-other p.loop_timer n p.sounds h.no_timer h.plays);
  old = h.old;
  no_timer = ground arith;
  no_source = ground arith;
}

start_pattern-IsLost :
    (n : ℕ) (id : String) (p : Player) → IsLost n p → IsLost n (start_pattern id p)
unfolding start_pattern is_sounding
start_pattern-IsLost n id p h = ground (arith, h.plays, h.old, h.no_source)

start_custom-IsLost : (n : ℕ) (p : Player) → IsLost n p → IsLost n (start_custom p)
unfolding start_custom is_sounding
start_custom-IsLost n p h = ground (arith, h.plays, h.old, h.no_timer, h.no_source)

play_resumed-IsLost : (n : ℕ) (id : String) (p : Player) → IsLost n p → IsLost n (play_resumed id p)
unfolding play_resumed start_pattern is_sounding
play_resumed-IsLost n id p h = ground (arith, h.plays, h.old, h.no_timer, h.no_source)

play_by_id-IsLost : (n : ℕ) (id : String) (p : Player) → IsLost n p → IsLost n (play_by_id id p)
unfolding play_by_id
play_by_id-IsLost n id p h =
    elim p.has_audio
      as (λ b.
        IsLost n
          (if b then record p { resuming = p.resuming ++ (id ∷ []) } else play_resumed id p)) [
            | true ↦ record {
              plays = h.plays;
              old = h.old;
              no_timer = h.no_timer;
              no_source = h.no_source;
            }
            | false ↦ play_resumed-IsLost n id p h
          ]

play_loaded-IsLost : (n : ℕ) (b : Bool) (p : Player) → IsLost n p → IsLost n (play_loaded b p)
unfolding play_loaded
play_loaded-IsLost n true p h = start_custom-IsLost n p h
play_loaded-IsLost n false p h = start_pattern-IsLost n (find_pattern "custom" patterns) p h

preview-IsLost : (n : ℕ) (id : String) (p : Player) → IsLost n p → IsLost n (preview_ringtone id p)
unfolding preview_ringtone
preview-IsLost n id p h =
    let q = play_by_id-IsLost n id (stop_all p) (stop_all-IsLost n p h) in
    record {
      plays = q.plays;
      old = omega (arith, q.old);
      no_timer = q.no_timer;
      no_source = q.no_source;
    }

resume_first-IsLost :
    (n : ℕ) (l : List String) (p : Player) → IsLost n p → IsLost n (resume_first l p)
resume_first-IsLost n [] p h = h
resume_first-IsLost n (id ∷ rest) p h =
    play_resumed-IsLost n id (record p { resuming = rest })
      record { plays = h.plays; old = h.old; no_timer = h.no_timer; no_source = h.no_source }

finish_load-IsLost : (n k : ℕ) (b : Bool) (p : Player) → IsLost n p → IsLost n (finish_load k b p)
finish_load-IsLost n zero b p h = h
finish_load-IsLost n (suc k) b p h =
    play_loaded-IsLost n b (record p { loading = k })
      record { plays = h.plays; old = h.old; no_timer = h.no_timer; no_source = h.no_source }

timeout-IsLost : (n : ℕ) (p : Player) (t : ℕ) → IsLost n p → IsLost n (step p (timeout_fires t))
unfolding step
timeout-IsLost n p t h =
    let fired : Player = record p { timeouts = clear_timeout t p.timeouts } in
    elim (is_due t p.timeouts) as (λ b. IsLost n (if b then stop_all fired else p)) [
      | true ↦
          stop_all-IsLost n fired
            record { plays = h.plays; old = h.old; no_timer = h.no_timer; no_source = h.no_source }
      | false ↦ h
    ]

step-IsLost : (n : ℕ) (p : Player) (i : Input) → IsLost n p → IsLost n (step p i)
unfolding step start
step-IsLost n p starts h =
    play_by_id-IsLost n (get_ringtone_id p) (stop_all p) (stop_all-IsLost n p h)
step-IsLost n p stops h = stop_all-IsLost n p h
step-IsLost n p (previews id) h = preview-IsLost n id p h
step-IsLost n p (selects id) h = record {
  plays = h.plays;
  old = h.old;
  no_timer = h.no_timer;
  no_source = h.no_source;
}
step-IsLost n p resumed h = resume_first-IsLost n p.resuming p h
step-IsLost n p (loaded b) h = finish_load-IsLost n p.loading b p h
step-IsLost n p load_fails h = record {
  plays = h.plays;
  old = h.old;
  no_timer = h.no_timer;
  no_source = h.no_source;
}
step-IsLost n p (timeout_fires t) h = timeout-IsLost n p t h

run_player-IsLost : (n : ℕ) (p : Player) (is : List Input) → IsLost n p → IsLost n (run_player p is)
unfolding run_player
run_player-IsLost n p [] h = h
run_player-IsLost n p (i ∷ is) h = run_player-IsLost n (step p i) is (step-IsLost n p i h)

-- Two starts before the audio context runs, and then both play.
abbrev pub started_twice : List Input
started_twice = starts ∷ starts ∷ resumed ∷ resumed ∷ []

started_twice-IsLost :
    (p : Player)
    → p.has_audio ≡ true
    → p.resuming ≡ []
    → (get_ringtone_id p == "custom") ≡ false
    → IsLost p.next (run_player p started_twice)
unfolding run_player step start play_by_id play_resumed start_pattern stop_all is_sounding
    get_ringtone_id
started_twice-IsLost p ha hr hc = ground arith

-- When two starts come before the audio context runs, and it then runs, the first of the two
-- ringtones, a built-in one, plays for ever: whatever follows, `stop` included, it still sounds.
pub double_start-endless :
    (p : Player) (is : List Input)
    → p.has_audio ≡ true
    → p.resuming ≡ []
    → (get_ringtone_id p == "custom") ≡ false
    → is_sounding p.next (run_player (run_player p started_twice) is).sounds ≡ true
double_start-endless p is ha hr hc =
    (run_player-IsLost p.next (run_player p started_twice) is
      (started_twice-IsLost p ha hr hc)).plays

-- A ringtone that is stopped before the audio context runs plays once it runs.
pub stop-late_play :
    (p : Player)
    → p.has_audio ≡ true
    → p.resuming ≡ []
    → (get_ringtone_id p == "custom") ≡ false
    → is_sounding p.next (run_player p (starts ∷ stops ∷ resumed ∷ [])).sounds ≡ true
unfolding run_player step start play_by_id play_resumed start_pattern stop_all is_sounding
    get_ringtone_id
stop-late_play p ha hr hc = ground arith
