-- ===== src/Web/Ringtone.antt =====
-- The ringtone player of apps/web/lib/ringtone.ts as a state machine: what loops, what is awaited and
-- which handles the module keeps. The notes and the Web Audio nodes are left out, and a sound is the
-- interval or the looping source behind it. The promises of one `AudioContext.resume` settle in order.
pub mod Silence
pub mod Overlap
mod Tests
use vertxing.Prelude.{
  String, Bool, true, false, ℕ, zero, suc, ◌+◌, Option, none, some, List, [], ◌∷◌, ◌++◌, ◌==◌, leb,
  ◌&&◌, if◌then◌else◌,
}

-- The ids of `PATTERNS`, the default `PATTERNS[0]` first.
abbrev pub patterns : List String
patterns = "classic" ∷ "pulse" ∷ "chime" ∷ "calm" ∷ "alert" ∷ []

-- What plays on a loop: the handle of the interval or of the source, and the tune.
pub record Sound : Type 0 where
  pub handle : ℕ
  pub tune : String

-- `next` is the next handle of the browser; `resuming` and `loading` are the calls of `playById` that
-- await the context and the custom buffer; `timeouts` are those that have not fired.
pub record Player : Type 0 where
  pub next : ℕ
  pub has_audio : Bool
  pub selected : Option String
  pub resuming : List String
  pub loading : ℕ
  pub sounds : List Sound
  pub timeouts : List ℕ
  pub loop_timer : Option ℕ
  pub custom_source : Option ℕ
  pub preview_timer : Option ℕ

-- The calls from outside, and what the browser answers: the context runs, the buffer is there (or is
-- not), reading the store fails, a timeout fires.
pub data Input : Type 0 where
  starts stops : Input
  previews selects : (id : String) → Input
  resumed : Input
  loaded : (usable : Bool) → Input
  load_fails : Input
  timeout_fires : ℕ → Input

abbrev pub same : ℕ → ℕ → Bool
same a b = leb a b && leb b a

-- `clearInterval` or `stop` on a handle.
unfoldable pub clear : ℕ → List Sound → List Sound
clear h [] = []
clear h (s ∷ l) = let rest = clear h l in if same h s.handle then rest else s ∷ rest

abbrev pub clear_held : Option ℕ → List Sound → List Sound
clear_held none l = l
clear_held (some h) l = clear h l

unfoldable pub is_due : ℕ → List ℕ → Bool
is_due t [] = false
is_due t (u ∷ l) = let rest = is_due t l in if same t u then true else rest

unfoldable pub clear_timeout : ℕ → List ℕ → List ℕ
clear_timeout t [] = []
clear_timeout t (u ∷ l) = let rest = clear_timeout t l in if same t u then rest else u ∷ rest

abbrev pub clear_due : Option ℕ → List ℕ → List ℕ
clear_due none l = l
clear_due (some t) l = clear_timeout t l

-- `stopAll`
unfoldable pub stop_all : Player → Player
stop_all p = record p {
  sounds = clear_held p.custom_source (clear_held p.loop_timer p.sounds);
  timeouts = clear_due p.preview_timer p.timeouts;
  loop_timer = none;
  custom_source = none;
  preview_timer = none;
}

unfoldable pub start_pattern : String → Player → Player
start_pattern id p = record p {
  next = suc p.next;
  sounds = record { handle = p.next; tune = id } ∷ p.sounds;
  loop_timer = some p.next;
}

unfoldable pub start_custom : Player → Player
start_custom p =
    if p.has_audio
    then record p {
      next = suc p.next;
      sounds = record { handle = p.next; tune = "custom" } ∷ p.sounds;
      custom_source = some p.next;
    }
    else p

-- `PATTERNS.find((p) => p.id === id) ?? PATTERNS[0]`
unfoldable pub find_pattern : String → List String → String
find_pattern id [] = "classic"
find_pattern id (q ∷ l) = let rest = find_pattern id l in if q == id then q else rest

-- `playById` from its first `await` on.
unfoldable pub play_resumed : String → Player → Player
unfolding start_pattern
play_resumed id p =
    if id == "custom"
    then record p { loading = suc p.loading }
    else start_pattern (find_pattern id patterns) p

unfoldable pub play_by_id : String → Player → Player
unfolding play_resumed
play_by_id id p =
    if p.has_audio then record p { resuming = p.resuming ++ (id ∷ []) } else play_resumed id p

-- `playById` after `loadCustomBuffer`
unfoldable pub play_loaded : Bool → Player → Player
unfolding start_pattern start_custom
play_loaded usable p =
    if usable then start_custom p else start_pattern (find_pattern "custom" patterns) p

unfoldable pub get_ringtone_id : Player → String
get_ringtone_id p = elim p.selected [
  | none ↦ "classic"
  | some id ↦ if id == "" then "classic" else id
]

unfoldable pub start : Player → Player
unfolding stop_all play_by_id get_ringtone_id
start p = play_by_id (get_ringtone_id p) (stop_all p)

-- `previewRingtone`: `setTimeout(stopAll, 5000)` after the play.
abbrev set_preview : Player → Player
set_preview p = record p {
  next = suc p.next;
  timeouts = p.next ∷ p.timeouts;
  preview_timer = some p.next;
}

unfoldable pub preview_ringtone : String → Player → Player
unfolding stop_all play_by_id
preview_ringtone id p = set_preview (play_by_id id (stop_all p))

abbrev pub resume_first : List String → Player → Player
resume_first [] p = p
resume_first (id ∷ rest) p = play_resumed id (record p { resuming = rest })

abbrev pub finish_load : ℕ → Bool → Player → Player
finish_load zero usable p = p
finish_load (suc k) usable p = play_loaded usable (record p { loading = k })

abbrev drop_load : ℕ → ℕ
drop_load zero = zero
drop_load (suc k) = k

unfoldable pub step : Player → Input → Player
unfolding start preview_ringtone stop_all play_resumed play_loaded is_due clear_timeout
step p starts = start p
step p stops = stop_all p
step p (previews id) = preview_ringtone id p
step p (selects id) = record p { selected = some id }
step p resumed = resume_first p.resuming p
step p (loaded usable) = finish_load p.loading usable p
step p load_fails = record p { loading = drop_load p.loading }
step p (timeout_fires t) =
    if is_due t p.timeouts then stop_all (record p { timeouts = clear_timeout t p.timeouts }) else p

unfoldable pub run_player : Player → List Input → Player
unfolding step
run_player p [] = p
run_player p (i ∷ is) = run_player (step p i) is
