-- ===== src/Web/CustomRingtone/Laws.antt =====
-- What is stored as the custom ringtone: apps/web/lib/ringtone.ts.
use vertxing.Prelude.{
  String, ◌≡◌, refl, Bool, true, false, ◌*◌, Option, none, some, List, [], ◌∷◌, leb, arith, ◌∙◌,
  sym, ap,
}
use vertxing.Web.CustomRingtone.{
  AudioBuffer, File, CustomRecord, CustomRingtoneMeta, Storage, Action, SaveResult, saved, saves,
  clears, loads, reloads, max_seconds, store_custom, save_decoded, get_custom_ringtone_meta,
  clear_custom_ringtone, save_custom_ringtone, load_stored, load_custom_buffer, step, run_storage,
}

-- A record is in order when it decodes to a buffer of at most fifteen seconds.
abbrev pub is_in_order : Option CustomRecord → Option AudioBuffer → Bool
is_in_order none _ = true
is_in_order (some r) none = false
is_in_order (some r) (some b) = leb b.frames (max_seconds * b.sample_rate)

-- The buffer in memory, if there is one, is the one that the record decodes to.
abbrev Kept : Option AudioBuffer → Option AudioBuffer → Type 0
Kept none _ = Unit
Kept (some b) o = o ≡ some b

abbrev pub is_saved : SaveResult → Bool
is_saved (saved m) = true
is_saved _ = false

module _ (decode_audio_data : String → Option AudioBuffer) where
  pub record IsCoherent (s : Storage) : Type 0 where
    pub in_order : is_in_order s.stored (load_stored decode_audio_data s.stored) ≡ true
    pub kept : Kept s.custom_buffer (load_stored decode_audio_data s.stored)

  save_decoded-IsCoherent :
      (file : File) (o : Option AudioBuffer) (s : Storage)
      → decode_audio_data file.bytes ≡ o
      → IsCoherent s
      → IsCoherent (save_decoded file o s).1
  unfolding save_decoded store_custom
  save_decoded-IsCoherent file none s e c = c
  save_decoded-IsCoherent file (some b) s e c = ground (arith, c.in_order, c.kept)

  step-IsCoherent :
      (s : Storage) (a : Action) → IsCoherent s → IsCoherent (step decode_audio_data s a)
  unfolding step save_custom_ringtone load_custom_buffer clear_custom_ringtone
  step-IsCoherent s (saves file) c =
      let q = save_decoded-IsCoherent file (decode_audio_data file.bytes) s refl c in
      ground (arith, c.in_order, c.kept, q.in_order, q.kept)
  step-IsCoherent s clears c = ground (arith, c.in_order, c.kept)
  step-IsCoherent s loads c = ground (arith, c.in_order, c.kept)
  step-IsCoherent s reloads c = ground (arith, c.in_order, c.kept)

  run_storage-IsCoherent :
      (s : Storage) (l : List Action)
      → IsCoherent s
      → IsCoherent (run_storage decode_audio_data s l)
  unfolding run_storage
  run_storage-IsCoherent s [] c = c
  run_storage-IsCoherent s (a ∷ l) c =
      run_storage-IsCoherent (step decode_audio_data s a) l (step-IsCoherent s a c)

  save_decoded-has_audio :
      (file : File) (o : Option AudioBuffer) (s : Storage)
      → (save_decoded file o s).1.has_audio ≡ s.has_audio
  unfolding save_decoded store_custom
  save_decoded-has_audio file o s = ground arith

  step-has_audio : (s : Storage) (a : Action) → (step decode_audio_data s a).has_audio ≡ s.has_audio
  unfolding step save_custom_ringtone load_custom_buffer clear_custom_ringtone
  step-has_audio s (saves file) =
      ground (arith, save_decoded-has_audio file (decode_audio_data file.bytes) s)
  step-has_audio s clears = ground arith
  step-has_audio s loads = ground arith
  step-has_audio s reloads = refl

  run_storage-has_audio :
      (s : Storage) (l : List Action) → (run_storage decode_audio_data s l).has_audio ≡ s.has_audio
  unfolding run_storage
  run_storage-has_audio s [] = refl
  run_storage-has_audio s (a ∷ l) =
      run_storage-has_audio (step decode_audio_data s a) l ∙ step-has_audio s a

  load-stored :
      (s : Storage)
      → s.has_audio ≡ true
      → IsCoherent s
      → (load_custom_buffer decode_audio_data s).0 ≡ load_stored decode_audio_data s.stored
  unfolding load_custom_buffer
  load-stored s ha c = ground (arith, c.kept)

  -- In a browser with audio and nothing stored at first, whatever is saved, cleared, loaded and
  -- reloaded: a stored record decodes and lasts at most fifteen seconds, and what is loaded to play is
  -- what the stored record decodes to.
  pub run_storage-load :
      (s : Storage) (l : List Action)
      → s.has_audio ≡ true
      → s.stored ≡ none
      → s.custom_buffer ≡ none
      → let q = run_storage decode_audio_data s l in
        is_in_order q.stored (load_stored decode_audio_data q.stored) ≡ true
        × (load_custom_buffer decode_audio_data q).0 ≡ load_stored decode_audio_data q.stored
  run_storage-load s l ha hs hb =
      let c = run_storage-IsCoherent s l (ground arith) in
      (
        c.in_order,
        load-stored (run_storage decode_audio_data s l) (run_storage-has_audio s l ∙ ha) c,
      )

  save_decoded-refused :
      (file : File) (o : Option AudioBuffer) (s : Storage)
      → is_saved (save_decoded file o s).0 ≡ false
      → (save_decoded file o s).1 ≡ s
  unfolding save_decoded store_custom
  save_decoded-refused file none s h = refl
  save_decoded-refused file (some b) s h = ground arith

  -- A file that is refused, for whatever reason, leaves the storage as it was.
  pub save-refused :
      (file : File) (s : Storage)
      → is_saved (save_custom_ringtone decode_audio_data file s).0 ≡ false
      → (save_custom_ringtone decode_audio_data file s).1 ≡ s
  unfolding save_custom_ringtone
  save-refused file s h =
      let f = save_decoded-refused file (decode_audio_data file.bytes) s in ground (arith, f)

  save_decoded-load :
      (file : File) (o : Option AudioBuffer) (s : Storage) (m : CustomRingtoneMeta)
      → decode_audio_data file.bytes ≡ o
      → (save_decoded file o s).0 ≡ saved m
      → get_custom_ringtone_meta (save_decoded file o s).1 ≡ some m
        × load_stored decode_audio_data (save_decoded file o s).1.stored ≡ o
  unfolding save_decoded store_custom get_custom_ringtone_meta
  save_decoded-load file o s m e h = ground arith

  saved_passed :
      (file : File) (s : Storage) (m : CustomRingtoneMeta)
      → (save_custom_ringtone decode_audio_data file s).0 ≡ saved m
      → s.has_audio ≡ true
        × save_custom_ringtone decode_audio_data file s
          ≡ save_decoded file (decode_audio_data file.bytes) s
  unfolding save_custom_ringtone
  saved_passed file s m h = (ground arith, ground arith)

  reload-load :
      (s : Storage)
      → s.has_audio ≡ true
      → (load_custom_buffer decode_audio_data (record s { custom_buffer = none })).0
        ≡ load_stored decode_audio_data s.stored
  unfolding load_custom_buffer
  reload-load s h = ground arith

  -- A file that was saved is found after the page has been loaded again: its name and duration are
  -- those that the save returned, and what is loaded to play is what its bytes decode to.
  pub save-load :
      (file : File) (s : Storage) (m : CustomRingtoneMeta)
      → (save_custom_ringtone decode_audio_data file s).0 ≡ saved m
      → let q = step decode_audio_data (save_custom_ringtone decode_audio_data file s).1 reloads in
        get_custom_ringtone_meta q ≡ some m
        × (load_custom_buffer decode_audio_data q).0 ≡ decode_audio_data file.bytes
  unfolding step get_custom_ringtone_meta
  save-load file s m h =
      let a = saved_passed file s m h in
      let d : Storage = (save_decoded file (decode_audio_data file.bytes) s).1 in
      let f =
        save_decoded-load file (decode_audio_data file.bytes) s m refl
          (sym (ap (λ x. x.0) a.1) ∙ h) in
      let k : d.has_audio ≡ true =
        save_decoded-has_audio file (decode_audio_data file.bytes) s ∙ a.0 in
      rw a.1 (f.0, reload-load d k ∙ f.1)
