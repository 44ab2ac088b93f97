-- ===== src/Web/Ringtone/Tests.antt =====
-- The ringtone player's theorems at concrete inputs.
use vertxing.Prelude.{◌≡◌, ◌≤◌, refl, true, none, some, List, [], ◌∷◌, length}
use vertxing.Web.Ringtone.{
  Player, Input, starts, stops, previews, selects, resumed, loaded, timeout_fires, step, run_player,
  is_due, clear_timeout, clear, find_pattern, get_ringtone_id,
}
use vertxing.Web.Ringtone.Silence.{all_patient, tunes, patient_run-silenced, patient_start-plays}
use vertxing.Web.Ringtone.Overlap.{is_sounding, double_start-endless, stop-late_play}

-- A page that has just been loaded.
abbrev fresh_player : Player
fresh_player = record {
  next = 0;
  has_audio = true;
  selected = some "calm";
  resuming = [];
  loading = 0;
  sounds = [];
  timeouts = [];
  loop_timer = none;
  custom_source = none;
  preview_timer = none;
}

-- A preview of the custom ringtone that ends by itself, then a call.
abbrev one_by_one : List Input
one_by_one =
    previews "custom"
    ∷ resumed
    ∷ loaded true
    ∷ timeout_fires 0
    ∷ starts
    ∷ resumed
    ∷ starts
    ∷ resumed
    ∷ []

plays_one : (run_player fresh_player one_by_one).sounds ≡ record { handle = 3; tune = "calm" } ∷ []
unfolding run_player step is_due clear_timeout clear find_pattern
plays_one = refl

preview_times_out :
    (run_player fresh_player (previews "pulse" ∷ resumed ∷ timeout_fires 0 ∷ [])).sounds ≡ []
unfolding run_player step is_due clear_timeout clear find_pattern
preview_times_out = refl

patient_run-silenced_example :
    length (run_player fresh_player one_by_one).sounds ≤ 1
    × (step (run_player fresh_player one_by_one) stops).sounds ≡ []
unfolding all_patient step
patient_run-silenced_example = patient_run-silenced fresh_player one_by_one refl refl refl

patient_start-plays_example :
    tunes
      (run_player
        (run_player fresh_player (selects "none such" ∷ []))
        (starts ∷ resumed ∷ [])).sounds
    ≡ "classic" ∷ []
unfolding all_patient step run_player find_pattern
patient_start-plays_example =
    patient_start-plays fresh_player (selects "none such" ∷ []) refl refl refl refl refl

double_start-endless_example :
    is_sounding 0
      (run_player
        (run_player fresh_player (starts ∷ starts ∷ resumed ∷ resumed ∷ []))
        (stops ∷ stops ∷ [])).sounds
    ≡ true
unfolding get_ringtone_id
double_start-endless_example = double_start-endless fresh_player (stops ∷ stops ∷ []) refl refl refl

late_play_seen :
    is_sounding 0 (run_player fresh_player (starts ∷ stops ∷ resumed ∷ [])).sounds ≡ true
unfolding get_ringtone_id
late_play_seen = stop-late_play fresh_player refl refl refl
