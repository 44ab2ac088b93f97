-- ===== src/Web/CustomRingtone.antt =====
-- The user's own ringtone: saveCustomRingtone, getCustomRingtoneMeta, clearCustomRingtone and
-- loadCustomBuffer of apps/web/lib/ringtone.ts, with its record in IndexedDB and the buffer that is
-- kept in memory. The audio decoder of the browser is a parameter. Each function runs
-- whole, and reading IndexedDB does not fail.
pub mod Laws
mod Tests
use text.Mathlib.Text.{starts_with}
use vertxing.Prelude.{
  String, ℕ, ◌*◌, Bool, true, false, not, Option, none, some, List, [], ◌∷◌, ltb, if◌then◌else◌,
}

-- An `AudioBuffer`: its duration is `frames / sample_rate` seconds.
pub record AudioBuffer : Type 0 where
  pub samples : String
  pub frames : ℕ
  pub sample_rate : ℕ

pub record File : Type 0 where
  pub mime : String
  pub size : ℕ
  pub bytes : String
  pub name : String

-- `CustomRecord`, the duration as above.
pub record CustomRecord : Type 0 where
  pub bytes : String
  pub name : String
  pub frames : ℕ
  pub sample_rate : ℕ

pub record CustomRingtoneMeta : Type 0 where
  pub name : String
  pub frames : ℕ
  pub sample_rate : ℕ

-- The record under `custom` in IndexedDB, and `customBuffer`. A browser has an audio context, or none
-- at all; its IndexedDB may refuse to write.
pub record Storage : Type 0 where
  pub has_audio : Bool
  pub writable : Bool
  pub stored : Option CustomRecord
  pub custom_buffer : Option AudioBuffer

pub data SaveResult : Type 0 where
  saved : CustomRingtoneMeta → SaveResult
  not_audio too_big unsupported not_valid too_long storage_error : SaveResult

pub data Action : Type 0 where
  saves : File → Action
  clears loads reloads : Action

abbrev pub max_bytes : ℕ
max_bytes = 1572864

abbrev pub max_seconds : ℕ
max_seconds = 15

unfoldable pub store_custom : File → AudioBuffer → Storage → SaveResult × Storage
store_custom file decoded s =
    if s.writable
    then (
      saved record { name = file.name; frames = decoded.frames; sample_rate = decoded.sample_rate },
      record s {
        stored = some record {
          bytes = file.bytes;
          name = file.name;
          frames = decoded.frames;
          sample_rate = decoded.sample_rate;
        };
        custom_buffer = some decoded;
      },
    )
    else (storage_error, s)

unfoldable pub save_decoded : File → Option AudioBuffer → Storage → SaveResult × Storage
unfolding store_custom
save_decoded file none s = (not_valid, s)
save_decoded file (some decoded) s =
    if ltb (max_seconds * decoded.sample_rate) decoded.frames
    then (too_long, s)
    else store_custom file decoded s

unfoldable pub get_custom_ringtone_meta : Storage → Option CustomRingtoneMeta
get_custom_ringtone_meta s = elim s.stored [
  | none ↦ none
  | some r ↦ some record { name = r.name; frames = r.frames; sample_rate = r.sample_rate }
]

-- The result, `false` where IndexedDB refuses.
unfoldable pub clear_custom_ringtone : Storage → Bool × Storage
clear_custom_ringtone s =
    if s.writable then (true, record s { stored = none; custom_buffer = none }) else (false, s)

module _ (decode_audio_data : String → Option AudioBuffer) where
  unfoldable pub save_custom_ringtone : File → Storage → SaveResult × Storage
  unfolding save_decoded
  save_custom_ringtone file s =
      if not (starts_with file.mime "audio/")
      then (not_audio, s)
      else if ltb max_bytes file.size
      then (too_big, s)
      else if not s.has_audio
      then (unsupported, s)
      else save_decoded file (decode_audio_data file.bytes) s

  abbrev pub load_stored : Option CustomRecord → Option AudioBuffer
  load_stored none = none
  load_stored (some r) = decode_audio_data r.bytes

  abbrev pub load_kept : Option AudioBuffer → Storage → Option AudioBuffer × Storage
  load_kept (some b) s = (some b, s)
  load_kept none s =
      if s.has_audio
      then (load_stored s.stored, record s { custom_buffer = load_stored s.stored })
      else (none, s)

  unfoldable pub load_custom_buffer : Storage → Option AudioBuffer × Storage
  load_custom_buffer s = load_kept s.custom_buffer s

  -- What happens to the storage: a call of one of the functions, or the page is loaded again.
  unfoldable pub step : Storage → Action → Storage
  unfolding save_custom_ringtone load_custom_buffer clear_custom_ringtone
  step s (saves file) = (save_custom_ringtone file s).1
  step s clears = (clear_custom_ringtone s).1
  step s loads = (load_custom_buffer s).1
  step s reloads = record s { custom_buffer = none }

  unfoldable pub run_storage : Storage → List Action → Storage
  unfolding step
  run_storage s [] = s
  run_storage s (a ∷ rest) = run_storage (step s a) rest
