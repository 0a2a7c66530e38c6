-- ===== src/Runner/Attempts.antt =====
-- runner.py, _attempt_strategy, _measure_frame and _process_with_retry: a frame is rendered, scored
-- against the previous one, and rendered again by the strategies of the queue while it fails.
pub mod Verdicts
pub mod Untouched
use face_swap_streamer_versi.Prelude.{
  ℕ, suc, ◌≡◌, Bool, true, false, ltb, ◌==◌, not, ◌||◌, ◌&&◌, if◌then◌else◌, List, [], ◌∷◌, ◌++◌,
  map, Option, none, some, String, Eq, string_eq, nat_eq, Dict, lookup, insert, get_or,
}
use face_swap_streamer_versi.Floats.{Floats, nought, one, fmin}
use face_swap_streamer_versi.Matching.{Box, bbox_iou}
use face_swap_streamer_versi.Quality.{
  QualityVerdict, pass, warning, fail, Metrics, FrameResult, component_keys, verdict_from_metrics,
  str_is,
}
use face_swap_streamer_versi.Runner.{
  FoundFace, Crop, Picks, Engine, RunConfig, Runner, real_retry, flicker_score, Attempt,
  render_attempt, render_attempt_alt_mask, detect_with_fallback,
}

abbrev pub is_fail : QualityVerdict → Bool
is_fail fail = true
is_fail _ = false

module _ {W I K : Type 0} where
  -- landmarks_from_prev: the landmarks of the face objects themselves are overwritten.
  abbrev pub patch : Dict ℕ (Crop W I K) → Picks W K → Picks W K
  patch prev [] = []
  patch prev ((face, si) ∷ rest) =
      (elim (lookup si prev) [ none ↦ face | some p ↦ record face { kps = p.kps } ], si)
      ∷ patch prev rest

module _ {W K : Type 0} ⦃f : Floats W⦄ where
  -- swap_detector: the refined face of the greatest overlap, above 0.
  abbrev pub nearest : Box W → List (FoundFace W K) → FoundFace W K → W → FoundFace W K
  nearest box [] best b_iou = best
  nearest box (r ∷ rest) best b_iou =
      let iou = bbox_iou box r.bbox in
      nearest box rest (if f.lt b_iou iou then r else best) (if f.lt b_iou iou then iou else b_iou)

  abbrev pub rebind : List (FoundFace W K) → Picks W K → Picks W K
  rebind refined [] = []
  rebind refined ((face, si) ∷ rest) =
      (nearest face.bbox refined face nought, si) ∷ rebind refined rest

-- The best attempt so far, and the runner and the picks as the latest attempt left them.
pub record Best (W I K T : Type 0) : Type 0 where
  pub attempt : Attempt W I K T
  pub flicker : W
  pub metrics : Metrics W
  pub runner : Runner W I K T
  pub picks : Picks W K
  pub reasons : List String
  pub retries : ℕ

module _ {W I K T : Type 0} ⦃f : Floats W⦄ (engine : Engine W I K T) (cfg : RunConfig W) where
  pub attempt_strategy : String → I → Picks W K → W → Runner W I K T → Attempt W I K T
  attempt_strategy s frame picks base_sharpen r =
      if str_is s "restoration_lower"
      then render_attempt engine cfg frame picks picks (f.mul base_sharpen (f.dec 5 1)) r
      else if str_is s "restoration_higher"
      then render_attempt engine cfg frame picks picks (fmin (f.mul base_sharpen (f.dec 15 1)) one)
          r
      else if str_is s "landmarks_from_prev"
      then (let patched = patch r.prev picks in
          render_attempt engine cfg frame patched patched base_sharpen r)
      else if str_is s "swap_detector"
      then (let refined = detect_with_fallback engine cfg frame r in
          elim refined [
            | [] ↦ render_attempt engine cfg frame picks picks base_sharpen r
            | face ∷ more ↦
                render_attempt engine cfg frame (rebind (face ∷ more) picks) picks base_sharpen r
          ])
      else if str_is s "blending_mask_alt"
      then render_attempt_alt_mask engine cfg frame picks base_sharpen r
      else render_attempt engine cfg frame picks picks base_sharpen r

  -- The loop of `_measure_frame`: the greatest score and its components.
  abbrev pub worst_crop :
      I → Dict ℕ (Crop W I K) → Dict ℕ (Crop W I K) → W → Metrics W → W × Metrics W
  worst_crop out prev [] worst comps = (worst, comps)
  worst_crop out prev ((si, cur) ∷ rest) worst comps =
      let skip = worst_crop out prev rest worst comps in
      elim (lookup si prev) [
        | none ↦ skip
        | some p ↦
            let c = engine.components out p cur in
            let fs = flicker_score c cfg.weights in
            worst_crop out prev rest (if f.le worst fs then fs else worst)
              (if f.le worst fs then c else comps)
      ]

  pub measure_frame : Attempt W I K T → W × Metrics W
  measure_frame a =
      let (worst, comps) =
        worst_crop a.frame a.runner.prev a.crops nought (map (λ k. (k, nought)) component_keys) in
      (
        worst,
        insert "mask_instability" (get_or "mask" nought comps) (
            insert "identity_consistency" one (
              insert "landmark_confidence" one
                (insert "detection_confidence" one (insert "flicker_score" worst comps)))),
      )

  pub first_try : I → Picks W K → W → Runner W I K T → Best W I K T
  unfolding measure_frame
  first_try frame picks base_sharpen r =
      let a = render_attempt engine cfg frame picks picks base_sharpen r in
      let (fs, m) = measure_frame a in
      record {
        attempt = a;
        flicker = fs;
        metrics = m;
        runner = a.runner;
        picks = a.picks;
        reasons = [];
        retries = 0;
      }

  pub try_again : String → I → W → Best W I K T → Best W I K T
  unfolding attempt_strategy measure_frame
  try_again s frame base_sharpen b =
      let a = attempt_strategy s frame b.picks base_sharpen b.runner in
      let (fs, m) = measure_frame a in
      let better = f.lt fs b.flicker in
      record {
        attempt = if better then a else b.attempt;
        flicker = if better then fs else b.flicker;
        metrics = if better then m else b.metrics;
        runner = a.runner;
        picks = a.picks;
        reasons = b.reasons ++ s ∷ [];
        retries = suc b.retries;
      }

  -- The loop over the strategies.
  pub retry_queue : List String → I → W → Best W I K T → Best W I K T
  unfolding try_again
  retry_queue [] frame base_sharpen b = b
  retry_queue (s ∷ queue) frame base_sharpen b =
      let again = retry_queue queue frame base_sharpen (try_again s frame base_sharpen b) in
      if not (is_fail (verdict_from_metrics b.metrics)) || not (ltb b.retries cfg.max_retry)
      then b
      else again

  -- _commit_prev
  abbrev pub commit_prev : Dict ℕ (Crop W I K) → Runner W I K T → Runner W I K T
  commit_prev [] r = r
  commit_prev ((si, cur) ∷ rest) r = commit_prev rest (record r { prev = insert si cur r.prev })

  -- Over budget, a frame that still fails is passed on with a warning, for review.
  pub report : ℕ → Best W I K T → FrameResult W
  report frame_idx b =
      let failed = is_fail (verdict_from_metrics b.metrics) in
      let reasons = if failed then b.reasons ++ "budget_exhausted" ∷ [] else b.reasons in
      record {
        frame_idx = frame_idx;
        verdict = if failed then warning else verdict_from_metrics b.metrics;
        flicker_score = b.flicker;
        components = map (λ k. (k, get_or k nought b.metrics)) component_keys;
        retry_count = b.retries;
        retry_strategies = reasons;
        reasons = reasons;
        duration_ms = nought;
        vram_peak_mb = 0;
      }

  pub process_with_retry :
      I → Picks W K → ℕ → W → Runner W I K T → FrameResult W × I × Runner W I K T
  unfolding first_try retry_queue report
  process_with_retry frame picks frame_idx base_sharpen r =
      let b = retry_queue real_retry frame base_sharpen (first_try frame picks base_sharpen r) in
      (report frame_idx b, b.attempt.frame, commit_prev b.attempt.crops b.runner)
