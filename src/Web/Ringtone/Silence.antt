-- ===== src/Web/Ringtone/Silence.antt =====
-- One ringtone at a time: apps/web/lib/ringtone.ts.
use vertxing.Prelude.{
  String, ◌≡◌, ◌≤◌, refl, Bool, true, false, zero, suc, ℕ, ◌+◌, ◌&&◌, List, [], ◌∷◌, ◌++◌, length,
  arith, leb, ◌==◌, ◌<◌, ◌∙◌, ap, if◌then◌else◌,
}
use vertxing.Web.Ringtone.{
  resume_first, finish_load, patterns, Player, Sound, Input, starts, stops, previews, selects,
  resumed, loaded, load_fails, timeout_fires, clear, clear_held, stop_all, start_pattern,
  start_custom, find_pattern, play_resumed, play_by_id, play_loaded, get_ringtone_id, start,
  preview_ringtone, step, run_player, is_due, clear_timeout,
}

-- How many calls of `playById` have not played yet.
abbrev pub awaited : Player → ℕ
awaited p = length p.resuming + p.loading

-- At most one ringtone is on its way or plays, and the module has the handle of the one that plays.
record IsCalm (p : Player) : Type 0 where
  few : awaited p + length p.sounds ≤ 1
  held : clear_held p.custom_source (clear_held p.loop_timer p.sounds) ≡ []

-- A start or a preview comes only when nothing is awaited.
abbrev pub is_patient : Player → Input → Bool
is_patient p starts = leb (awaited p) 0
is_patient p (previews id) = leb (awaited p) 0
is_patient p _ = true

unfoldable pub all_patient : Player → List Input → Bool
all_patient p [] = true
all_patient p (i ∷ is) = is_patient p i && all_patient (step p i) is

length-snoc : (id : String) (l : List String) → length (l ++ (id ∷ [])) ≡ suc (length l)
length-snoc id [] = refl
length-snoc id (x ∷ l) = λ i. suc (length-snoc id l i)

length-zero : (l : List Sound) → length l ≤ 0 → l ≡ []
length-zero [] h = refl
length-zero (x ∷ l) h = absurd (omega arith)

play_resumed-IsCalm :
    (id : String) (p : Player) → awaited p ≡ 0 → p.sounds ≡ [] → IsCalm (play_resumed id p)
unfolding play_resumed start_pattern clear
play_resumed-IsCalm id p ha hs = ground arith

play_loaded-IsCalm :
    (b : Bool) (p : Player) → awaited p ≡ 0 → p.sounds ≡ [] → IsCalm (play_loaded b p)
unfolding play_loaded start_pattern start_custom clear
play_loaded-IsCalm b p ha hs = ground arith

play_by_id-IsCalm :
    (id : String) (p : Player) → awaited p ≡ 0 → p.sounds ≡ [] → IsCalm (play_by_id id p)
unfolding play_by_id clear
play_by_id-IsCalm id p ha hs =
    let c = play_resumed-IsCalm id p ha hs in
    ground (arith, length-snoc id p.resuming, c.few, c.held)

-- What `stopAll` leaves, when the handle of all that plays is known.
stop_all-silent :
    (p : Player)
    → clear_held p.custom_source (clear_held p.loop_timer p.sounds) ≡ []
    → (stop_all p).sounds ≡ []
unfolding stop_all
stop_all-silent p h = h

stop_all-awaited : (p : Player) → awaited (stop_all p) ≡ awaited p
unfolding stop_all
stop_all-awaited p = refl

stop_all-IsCalm : (p : Player) → IsCalm p → IsCalm (stop_all p)
unfolding stop_all
stop_all-IsCalm p c = record { few = ground (arith, c.few, c.held); held = c.held }

no_sounds : (p : Player) (k : ℕ) → k ≡ awaited p → 0 < k → IsCalm p → p.sounds ≡ []
no_sounds p k e h c = length-zero p.sounds (omega (arith, c.few))

set_preview-IsCalm :
    (id : String) (p : Player) → awaited p ≡ 0 → IsCalm p → IsCalm (preview_ringtone id p)
unfolding preview_ringtone
set_preview-IsCalm id p ha c =
    let q =
      play_by_id-IsCalm id (stop_all p) (stop_all-awaited p ∙ ha) (stop_all-silent p c.held) in
    record { few = q.few; held = q.held }

start-IsCalm : (p : Player) → awaited p ≡ 0 → IsCalm p → IsCalm (start p)
unfolding start
start-IsCalm p ha c =
    play_by_id-IsCalm (get_ringtone_id p) (stop_all p) (stop_all-awaited p ∙ ha)
      (stop_all-silent p c.held)

resume_first-IsCalm :
    (l : List String) (p : Player) → p.resuming ≡ l → IsCalm p → IsCalm (resume_first l p)
resume_first-IsCalm [] p e c = c
resume_first-IsCalm (id ∷ rest) p e c =
    let n : length p.resuming ≡ suc (length rest) = ap length e in
    play_resumed-IsCalm id (record p { resuming = rest }) (omega (arith, c.few))
      (length-zero p.sounds (omega (arith, c.few)))

finish_load-IsCalm :
    (k : ℕ) (b : Bool) (p : Player) → p.loading ≡ k → IsCalm p → IsCalm (finish_load k b p)
finish_load-IsCalm zero b p e c = c
finish_load-IsCalm (suc k) b p e c =
    play_loaded-IsCalm b (record p { loading = k }) (omega (arith, c.few))
      (length-zero p.sounds (omega (arith, c.few)))

timeout-IsCalm : (p : Player) (t : ℕ) → IsCalm p → IsCalm (step p (timeout_fires t))
unfolding step
timeout-IsCalm p t c =
    let fired : Player = record p { timeouts = clear_timeout t p.timeouts } in
    let q = stop_all-IsCalm fired record { few = c.few; held = c.held } in
    elim (is_due t p.timeouts) as (λ b. IsCalm (if b then stop_all fired else p)) [
      | true ↦ q
      | false ↦ c
    ]

step-IsCalm : (p : Player) (i : Input) → is_patient p i ≡ true → IsCalm p → IsCalm (step p i)
unfolding step
step-IsCalm p starts h c = start-IsCalm p (ground arith) c
step-IsCalm p stops h c = stop_all-IsCalm p c
step-IsCalm p (previews id) h c = set_preview-IsCalm id p (ground arith) c
step-IsCalm p (selects id) h c = record { few = c.few; held = c.held }
step-IsCalm p resumed h c = resume_first-IsCalm p.resuming p refl c
step-IsCalm p (loaded b) h c = finish_load-IsCalm p.loading b p refl c
step-IsCalm p load_fails h c = ground (arith, c.few, c.held)
step-IsCalm p (timeout_fires t) h c = timeout-IsCalm p t c

run_player-IsCalm :
    (p : Player) (is : List Input) → all_patient p is ≡ true → IsCalm p → IsCalm (run_player p is)
unfolding run_player all_patient
run_player-IsCalm p [] h c = c
run_player-IsCalm p (i ∷ is) h c =
    run_player-IsCalm (step p i) is (ground arith) (step-IsCalm p i (ground arith) c)

fresh-IsCalm : (p : Player) → awaited p ≡ 0 → p.sounds ≡ [] → IsCalm p
unfolding clear
fresh-IsCalm p ha hs = ground arith

-- From a silent page, as long as each start and each preview comes when no earlier one still awaits
-- the audio context or the custom buffer, at most one ringtone plays at any time, and `stop` silences
-- it.
pub patient_run-silenced :
    (p : Player) (is : List Input)
    → awaited p ≡ 0
    → p.sounds ≡ []
    → all_patient p is ≡ true
    → length (run_player p is).sounds ≤ 1 × (step (run_player p is) stops).sounds ≡ []
unfolding step
patient_run-silenced p is ha hs h =
    let c = run_player-IsCalm p is h (fresh-IsCalm p ha hs) in
    (omega (arith, c.few), stop_all-silent (run_player p is) c.held)

abbrev pub tunes : List Sound → List String
tunes [] = []
tunes (s ∷ l) = s.tune ∷ tunes l

no_ids : (l : List String) → length l ≤ 0 → l ≡ []
no_ids [] h = refl
no_ids (x ∷ l) h = absurd (omega arith)

resuming_none : (p : Player) → awaited p ≡ 0 → p.resuming ≡ []
resuming_none p h = no_ids p.resuming (omega arith)

play_by_id-plays :
    (id : String) (p : Player)
    → p.resuming ≡ []
    → p.sounds ≡ []
    → (id == "custom") ≡ false
    → tunes (resume_first (play_by_id id p).resuming (play_by_id id p)).sounds
      ≡ find_pattern id patterns ∷ []
unfolding play_by_id play_resumed start_pattern
play_by_id-plays id p hr hs hc = ground arith

start_plays :
    (p : Player)
    → awaited p ≡ 0
    → (get_ringtone_id p == "custom") ≡ false
    → IsCalm p
    → tunes (step (step p starts) resumed).sounds ≡ find_pattern (get_ringtone_id p) patterns ∷ []
unfolding step start stop_all
start_plays p ha hc c =
    play_by_id-plays (get_ringtone_id p) (stop_all p) (resuming_none p ha) c.held hc

-- And then a start with nothing awaited plays the selected ringtone, once the context runs, and
-- nothing else; an id that names no pattern plays the first.
pub patient_start-plays :
    (p : Player) (is : List Input)
    → awaited p ≡ 0
    → p.sounds ≡ []
    → all_patient p is ≡ true
    → awaited (run_player p is) ≡ 0
    → (get_ringtone_id (run_player p is) == "custom") ≡ false
    → tunes (run_player (run_player p is) (starts ∷ resumed ∷ [])).sounds
      ≡ find_pattern (get_ringtone_id (run_player p is)) patterns ∷ []
unfolding run_player
patient_start-plays p is ha hs h hq hc =
    start_plays (run_player p is) hq hc (run_player-IsCalm p is h (fresh-IsCalm p ha hs))
