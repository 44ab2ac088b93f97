-- ===== src/Web/CustomRingtone/Tests.antt =====
-- The custom ringtone's theorems at concrete inputs.
use vertxing.Prelude.{
  String, ◌≡◌, refl, true, Option, none, some, List, [], ◌∷◌, ◌==◌, if◌then◌else◌,
}
use vertxing.Web.CustomRingtone.{
  AudioBuffer, File, Storage, Action, too_long, not_valid, not_audio, too_big, saves, clears, loads,
  reloads, save_custom_ringtone, load_custom_buffer, load_stored, get_custom_ringtone_meta,
  run_storage, step,
}
use vertxing.Web.CustomRingtone.Laws.{is_in_order, run_storage-load, save-load, save-refused}

-- A decoder that knows two files, of three and of sixteen seconds.
abbrev decoder : String → Option AudioBuffer
decoder bytes =
    if bytes == "beep"
    then some record { samples = "b"; frames = 144000; sample_rate = 48000 }
    else if bytes == "song"
    then some record { samples = "s"; frames = 768000; sample_rate = 48000 }
    else none

abbrev beep : File
beep = record { mime = "audio/mpeg"; size = 1572864; bytes = "beep"; name = "beep.mp3" }

abbrev song : File
song = record { mime = "audio/wav"; size = 90000; bytes = "song"; name = "song.wav" }

abbrev renamed_image : File
renamed_image = record { mime = "audio/mpeg"; size = 90000; bytes = "png"; name = "image.mp3" }

abbrev picture : File
picture = record { mime = "image/png"; size = 90000; bytes = "beep"; name = "a.png" }

abbrev empty_storage : Storage
empty_storage = record { has_audio = true; writable = true; stored = none; custom_buffer = none }

song_refused : (save_custom_ringtone decoder song empty_storage).0 ≡ too_long
unfolding save_custom_ringtone
song_refused = refl

image_refused : (save_custom_ringtone decoder renamed_image empty_storage).0 ≡ not_valid
unfolding save_custom_ringtone
image_refused = refl

picture_refused : (save_custom_ringtone decoder picture empty_storage).0 ≡ not_audio
unfolding save_custom_ringtone
picture_refused = refl

large_refused :
    (save_custom_ringtone decoder record beep { size = 1572865 } empty_storage).0 ≡ too_big
unfolding save_custom_ringtone
large_refused = refl

song_changes_nothing : (save_custom_ringtone decoder song empty_storage).1 ≡ empty_storage
unfolding save_custom_ringtone
song_changes_nothing = save-refused decoder song empty_storage refl

beep_found :
    let q = step decoder (save_custom_ringtone decoder beep empty_storage).1 reloads in
    get_custom_ringtone_meta q
      ≡ some record { name = "beep.mp3"; frames = 144000; sample_rate = 48000 }
    × (load_custom_buffer decoder q).0 ≡ decoder "beep"
unfolding save_custom_ringtone
beep_found =
    save-load decoder beep empty_storage
      record { name = "beep.mp3"; frames = 144000; sample_rate = 48000 } refl

abbrev changes : List Action
changes = saves beep ∷ saves song ∷ loads ∷ reloads ∷ clears ∷ saves renamed_image ∷ saves beep ∷ []

run_storage-load_example :
    let q = run_storage decoder empty_storage changes in
    is_in_order q.stored (load_stored decoder q.stored) ≡ true
    × (load_custom_buffer decoder q).0 ≡ load_stored decoder q.stored
run_storage-load_example = run_storage-load decoder empty_storage changes refl refl refl
