-- ===== src/Quality.antt =====
-- src/face_swap/quality_validator.py, and FrameResult of types.py: the verdict on a frame and the
-- retry queue. `metrics_fn`, which the pipeline injects, is a parameter; log calls are left out.
-- `none` is the ValueError of an unknown strategy.
pub mod Verdicts
pub mod Retry
pub mod Samples
use face_swap_streamer_versi.Prelude.{
  ℕ, ◌≡◌, refl, Bool, true, false, if◌then◌else◌, List, [], ◌∷◌, ◌++◌, map, Option, none, some,
  String, Eq, string_eq, Dict, lookup, get_or, select, any, take, length,
}
use face_swap_streamer_versi.Floats.{Floats, nought, one, fmax, fmin}

pub data QualityVerdict : Type 0 where
  pass warning fail : QualityVerdict

pub data Direction : Type 0 where
  above below : Direction

abbrev pub Metrics : Type 0 → Type 0
Metrics W = Dict String W

pub record Threshold (W : Type 0) : Type 0 where
  pub metric : String
  pub direction : Direction
  pub pass_at : W
  pub warn_at : W

-- The context without its `metrics_fn`.
pub record FrameContext (W : Type 0) : Type 0 where
  pub frame_idx : ℕ
  pub crop_scale : W
  pub detector : String
  pub landmark_source : String
  pub restoration_strength : W
  pub blending_mask : String
  pub temporal_interpolate : Bool

pub record FrameResult (W : Type 0) : Type 0 where
  pub frame_idx : ℕ
  pub verdict : QualityVerdict
  pub flicker_score : W
  pub components : Metrics W
  pub retry_count : ℕ
  pub retry_strategies : List String
  pub reasons : List String
  pub duration_ms : W
  pub vram_peak_mb : ℕ

abbrev pub retry_strategies : List String
retry_strategies =
    "crop_larger" ∷ "crop_smaller" ∷ "swap_detector" ∷ "landmarks_from_prev" ∷ "landmarks_from_next"
    ∷ "restoration_lower" ∷ "restoration_higher" ∷ "blending_mask_alt" ∷ "temporal_interpolation"
    ∷ []

abbrev pub component_keys : List String
component_keys = "embedding" ∷ "color" ∷ "landmark" ∷ "mask" ∷ "sharpness" ∷ []

abbrev pub str_is : String → String → Bool
str_is = string_eq.beq

module _ {W : Type 0} ⦃f : Floats W⦄ where
  abbrev threshold : String → Direction → W → W → Threshold W
  threshold n d p w = record { metric = n; direction = d; pass_at = p; warn_at = w }

  -- THRESHOLDS
  pub thresholds : List (Threshold W)
  thresholds =
      threshold "detection_confidence" above (f.dec 90 2) (f.dec 70 2)
      ∷ threshold "landmark_confidence" above (f.dec 85 2) (f.dec 65 2)
      ∷ threshold "identity_consistency" above (f.dec 80 2) (f.dec 65 2)
      ∷ threshold "flicker_score" below (f.dec 10 2) (f.dec 25 2)
      ∷ threshold "color_shift_de" below (f.dec 30 1) (f.dec 80 1)
      ∷ threshold "mask_instability" below (f.dec 5 2) (f.dec 15 2)
      ∷ []

  -- The value is on the wrong side of the limit.
  pub beyond : Direction → W → W → Bool
  beyond above v limit = f.lt v limit
  beyond below v limit = f.lt limit v

  -- The loop of `verdict_from_metrics`, with its early return.
  pub scan : Metrics W → List (Threshold W) → QualityVerdict → QualityVerdict
  unfolding beyond
  scan m [] worst = worst
  scan m (r ∷ rows) worst =
      let skip = scan m rows worst in
      let warned = scan m rows warning in
      elim (lookup r.metric m) [
        | none ↦ skip
        | some v ↦
            if beyond r.direction v r.warn_at
            then fail
            else if beyond r.direction v r.pass_at
            then warned
            else skip
      ]

  pub verdict_from_metrics : Metrics W → QualityVerdict
  unfolding thresholds scan
  verdict_from_metrics m = scan m thresholds pass

  pub apply_strategy : String → FrameContext W → Option (FrameContext W)
  apply_strategy s c =
      if str_is s "crop_larger"
      then some (record c { crop_scale = fmin (f.mul c.crop_scale (f.dec 125 2)) (f.dec 20 1) })
      else if str_is s "crop_smaller"
      then some (record c { crop_scale = fmax (f.mul c.crop_scale (f.dec 8 1)) (f.dec 5 1) })
      else if str_is s "swap_detector"
      then some
          (record c { detector = if str_is c.detector "primary" then "fallback" else "primary" })
      else if str_is s "landmarks_from_prev"
      then some (record c { landmark_source = "prev" })
      else if str_is s "landmarks_from_next"
      then some (record c { landmark_source = "next" })
      else if str_is s "restoration_lower"
      then some (record c {
        restoration_strength = fmax (f.sub c.restoration_strength (f.dec 2 1)) nought;
      })
      else if str_is s "restoration_higher"
      then some
          (record c { restoration_strength = fmin (f.add c.restoration_strength (f.dec 2 1)) one })
      else if str_is s "blending_mask_alt"
      then some (record c { blending_mask = "alt" })
      else if str_is s "temporal_interpolation"
      then some (record c { temporal_interpolate = true })
      else none

module _ {W : Type 0} ⦃f : Floats W⦄ (metrics_fn : FrameContext W → Metrics W) where
  pub evaluate : ℕ → FrameContext W → FrameResult W
  evaluate frame_idx ctx =
      let m = metrics_fn ctx in
      record {
        frame_idx = frame_idx;
        verdict = verdict_from_metrics m;
        flicker_score = get_or "flicker_score" nought m;
        components = select (λ kv. any (str_is kv.0) component_keys) m;
        retry_count = 0;
        retry_strategies = [];
        reasons = [];
        duration_ms = nought;
        vram_peak_mb = 0;
      }

  -- min(attempts, key=flicker): the first of the lowest.
  pub lowest : String × FrameResult W → List (String × FrameResult W) → String × FrameResult W
  lowest best [] = best
  lowest best (a ∷ rest) =
      lowest (if f.lt (a.1).flicker_score (best.1).flicker_score then a else best) rest

  -- After the loop of `retry`, with no attempt that passed.
  pub conclude : ℕ → FrameContext W → List (String × FrameResult W) → FrameResult W
  unfolding lowest evaluate
  conclude frame_idx ctx [] = evaluate frame_idx ctx
  conclude frame_idx ctx (a ∷ rest) =
      let attempts = a ∷ rest in
      let tried = map (λ t. t.0) attempts in
      record ((lowest a rest).1) {
        verdict = warning;
        retry_count = length attempts;
        retry_strategies = tried;
        reasons = tried ++ "budget_exhausted" ∷ [];
      }

  pub retry_from :
      ℕ → FrameContext W → List String → List (String × FrameResult W) → Option (FrameResult W)
  retry_from frame_idx ctx [] attempts = some (conclude frame_idx ctx attempts)
  retry_from frame_idx ctx (s ∷ queue) attempts = elim (apply_strategy s ctx) [
    | none ↦ none
    | some new_ctx ↦
        let result = evaluate frame_idx new_ctx in
        let attempts' = attempts ++ (s, result) ∷ [] in
        let tried = map (λ t. t.0) attempts' in
        let more = retry_from frame_idx ctx queue attempts' in
        elim result.verdict [
          | pass ↦ some (record result {
            retry_count = length attempts';
            retry_strategies = tried;
            reasons = tried;
          })
          | _ ↦ more
        ]
  ]

  pub retry : ℕ → FrameContext W → ℕ → Option (FrameResult W)
  retry frame_idx ctx budget = retry_from frame_idx ctx (take budget retry_strategies) []

  pub evaluate_with_retry : ℕ → FrameContext W → ℕ → Option (FrameResult W)
  evaluate_with_retry frame_idx ctx max_retry =
      let result = evaluate frame_idx ctx in
      elim result.verdict [ fail ↦ retry frame_idx ctx max_retry | _ ↦ some result ]
