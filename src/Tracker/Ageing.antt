-- ===== src/Tracker/Ageing.antt =====
-- Tracker.update: the ageing of the tracks.
use face_swap_streamer_versi.Prelude.{ℕ, ◌+◌, ◌≤◌, ◌≡◌, true, List, [], ◌∷◌, map, Dict, arith, All}
use face_swap_streamer_versi.Floats.{Floats}
use face_swap_streamer_versi.Types.{FaceDetection}
use face_swap_streamer_versi.Tracker.{Numpy, Track, Tracker, age, matched_tracker, update}

module _ {W E : Type 0} ⦃f : Floats W⦄ (np : Numpy W E) where
  -- A track that is active was seen at most `gap` frames ago.
  abbrev pub Fresh : ℕ → ℕ → ℕ × Track W E → Type 0
  Fresh gap frame_idx kv = (kv.1).active ≡ true → frame_idx ≤ (kv.1).last_frame_seen + gap

  aged-Fresh :
      (gap frame_idx : ℕ) (d : Dict ℕ (Track W E))
      → All (Fresh gap frame_idx) (map (λ kv. (kv.0, age np gap frame_idx kv.1)) d)
  unfolding age
  aged-Fresh gap frame_idx [] = tt
  aged-Fresh gap frame_idx ((k, track) ∷ d) = (λ on. ground (arith, on), aged-Fresh gap frame_idx d)

  -- After an update every track that is still active was seen at most the allowed number of frames
  -- before the current frame.
  pub update_expires :
      (dets : List (FaceDetection W E)) (frame_idx : ℕ) (t : Tracker W E)
      → All
          (Fresh (update np dets frame_idx t).max_gap frame_idx)
          (update np dets frame_idx t).tracks
  unfolding update
  update_expires dets frame_idx t =
      let t' = matched_tracker np dets frame_idx t in aged-Fresh t'.max_gap frame_idx t'.tracks
