-- ===== src/Runner.antt =====
-- src/face_swap/runner.py: the frame loop of the stage runner, with the rendering, scoring and
-- retries of a frame, its quality log and its checkpoints; rate_limit_strength of
-- restoration_engine.py and flicker_score of flicker.py. The models and the arithmetic on images
-- are the operations of an Engine.
pub mod Attempts
pub mod Frames
pub mod Samples
use face_swap_streamer_versi.Prelude.{
  ℕ, zero, suc, ◌+◌, ◌%◌, ◌≡◌, refl, Bool, true, false, ltb, ◌==◌, not, ◌||◌, if◌then◌else◌, List,
  [], ◌∷◌, ◌++◌, map, Option, none, some, String, Eq, string_eq, nat_eq, Dict, lookup, insert,
  get_or, any, length, drop,
}
use face_swap_streamer_versi.Floats.{Floats, nought, one, fmax, fmin}
use face_swap_streamer_versi.Matching.{Box, bbox_iou}
use face_swap_streamer_versi.Quality.{
  QualityVerdict, pass, warning, fail, Metrics, FrameResult, component_keys, verdict_from_metrics,
  str_is,
}
use face_swap_streamer_versi.Observability.Metrics.{MetricsRegistry}
use face_swap_streamer_versi.Observability.Reliability.{ReliabilityTracker, record_frame}

-- A face of insightface, with its landmarks.
pub record FoundFace (W K : Type 0) : Type 0 where
  pub bbox : Box W
  pub kps : K

-- An entry of `crops` and of `_prev`.
pub record Crop (W I K : Type 0) : Type 0 where
  pub crop : I
  pub kps : K
  pub bbox : Box W

abbrev pub Picks : Type 0 → Type 0 → Type 0
Picks W K = List (FoundFace W K × ℕ)

pub record Engine (W I K T : Type 0) : Type 0 where
  -- adaptive_strength at the greatest strength
  pub scene_strength : W → I → W
  -- swapper.swap: the picture, the face, the source, the colour and sharpening strengths and
  -- that of the restoration
  pub swap : I → FoundFace W K → ℕ → W → W → W → I
  -- The crop of a swapped face, if it is not empty.
  pub crop_of : I → FoundFace W K → Option (Crop W I K)
  -- compute_components on the warped previous crop and the current one
  pub components : I → Crop W I K → Crop W I K → Metrics W
  -- app.get, on the frame, at the larger size, and in the region of a last box
  pub detect : I → List (FoundFace W K)
  pub detect_large : I → List (FoundFace W K)
  pub detect_near : Box W → I → List (FoundFace W K)
  -- The matching and smoothing of the faces found, with what they remember.
  pub match_faces : T → ℕ → List (FoundFace W K) → Picks W K × T
  -- float("inf") and float("-inf")
  pub top : W
  pub bottom : W
  pub duration : ℕ → W
  -- Python's round(x, ndigits)
  pub round : W → ℕ → W
  pub vram : ℕ → ℕ

pub record RunConfig (W : Type 0) : Type 0 where
  pub max_strength : W
  pub max_delta : W
  pub weights : W × W × W × W × W
  pub restoration_enabled : Bool
  pub checkpoint_every : ℕ
  pub max_retry : ℕ

-- What a checkpoint says of the progress of the run.
pub record Mark (W : Type 0) : Type 0 where
  pub last_completed_frame : ℕ
  pub next_frame_to_process : ℕ
  pub flicker_mean : W

pub record Runner (W I K T : Type 0) : Type 0 where
  pub prev : Dict ℕ (Crop W I K)
  pub prev_strength : Dict ℕ W
  pub last_bbox : Dict ℕ (Box W)
  pub matcher : T
  pub had_manual_review : Bool
  pub reliability : ReliabilityTracker W
  pub quality : List (FrameResult W)  -- quality.jsonl
  pub images : List (ℕ × I)  -- the files written, oldest first
  pub metrics : MetricsRegistry W
  pub checkpoints : List (Mark W)  -- oldest first

-- _REAL_RETRY
abbrev pub real_retry : List String
real_retry =
    "restoration_lower" ∷ "landmarks_from_prev" ∷ "swap_detector" ∷ "blending_mask_alt"
    ∷ "restoration_higher" ∷ []

module _ {W : Type 0} ⦃f : Floats W⦄ where
  -- np.clip
  abbrev pub clip : W → W → W → W
  clip x low high = fmin (fmax x low) high

  pub rate_limit_strength : W → W → W → W
  rate_limit_strength prev target max_delta =
      let delta = clip (f.sub target prev) (f.sub nought max_delta) max_delta in
      clip (f.add prev delta) nought one

  pub flicker_score : Metrics W → W × W × W × W × W → W
  flicker_score c (w1, w2, w3, w4, w5) =
      f.add
        (f.add
          (f.add
            (f.add (f.mul w1 (get_or "embedding" nought c)) (f.mul w2 (get_or "color" nought c)))
            (f.mul w3 (get_or "landmark" nought c)))
          (f.mul w4 (get_or "mask" nought c)))
        (f.mul w5 (get_or "sharpness" nought c))

-- What an attempt makes: the frame, its crops by source, the runner and the picks after it.
pub record Attempt (W I K T : Type 0) : Type 0 where
  pub frame : I
  pub crops : Dict ℕ (Crop W I K)
  pub runner : Runner W I K T
  pub picks : Picks W K

module _ {W I K T : Type 0} ⦃f : Floats W⦄ (engine : Engine W I K T) (cfg : RunConfig W) where
  abbrev add_crop : ℕ → Option (Crop W I K) → Dict ℕ (Crop W I K) → Dict ℕ (Crop W I K)
  add_crop si none crops = crops
  add_crop si (some c) crops = insert si c crops

  -- The loop of `_render_attempt` over the faces that are left.
  pub render_faces : W → W → Picks W K → Attempt W I K T → Attempt W I K T
  unfolding rate_limit_strength
  render_faces scene sharpen [] a = a
  render_faces scene sharpen ((face, si) ∷ rest) a =
      let rs = rate_limit_strength (get_or si scene a.runner.prev_strength) scene cfg.max_delta in
      let work = engine.swap a.frame face si cfg.max_strength sharpen rs in
      render_faces scene sharpen rest (record a {
        frame = work;
        crops = add_crop si (engine.crop_of work face) a.crops;
        runner = record (a.runner) { prev_strength = insert si rs a.runner.prev_strength };
      })

  pub render_attempt : I → Picks W K → Picks W K → W → Runner W I K T → Attempt W I K T
  unfolding render_faces
  render_attempt frame faces picks sharpen r =
      render_faces (engine.scene_strength cfg.max_strength frame) sharpen faces
        (record { frame = frame; crops = []; runner = r; picks = picks })

  -- The loop of `_render_attempt_alt_mask`, which leaves `_prev_strength` alone.
  pub render_faces_alt : W → W → Picks W K → Attempt W I K T → Attempt W I K T
  unfolding rate_limit_strength
  render_faces_alt scene sharpen [] a = a
  render_faces_alt scene sharpen ((face, si) ∷ rest) a =
      let rs = rate_limit_strength (get_or si scene a.runner.prev_strength) scene cfg.max_delta in
      let half = f.dec 5 1 in
      let work =
        engine.swap a.frame face si (f.mul cfg.max_strength half) (f.mul sharpen half) rs in
      render_faces_alt scene sharpen rest
        (record a { frame = work; crops = add_crop si (engine.crop_of work face) a.crops })

  pub render_attempt_alt_mask : I → Picks W K → W → Runner W I K T → Attempt W I K T
  unfolding render_faces_alt
  render_attempt_alt_mask frame picks sharpen r =
      render_faces_alt (engine.scene_strength cfg.max_strength frame) sharpen picks
        (record { frame = frame; crops = []; runner = r; picks = picks })

  abbrev search_boxes : List (ℕ × Box W) → I → List (FoundFace W K)
  search_boxes [] frame = []
  search_boxes ((si, box) ∷ rest) frame = engine.detect_near box frame ++ search_boxes rest frame

  -- The ladder: the frame, the frame at a larger size, the regions of the last boxes.
  pub detect_with_fallback : I → Runner W I K T → List (FoundFace W K)
  detect_with_fallback frame r = elim (engine.detect frame) [
    | face ∷ more ↦ face ∷ more
    | [] ↦ elim (engine.detect_large frame) [
      | face ∷ more ↦ face ∷ more
      | [] ↦ search_boxes r.last_bbox frame
    ]
  ]
