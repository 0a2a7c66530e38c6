-- ===== src/Quality/Samples.antt =====
-- Quality: a frame that only a larger crop helps, and the theorems at it.
use face_swap_streamer_versi.Prelude.{◌≡◌, refl, false, if◌then◌else◌, [], ◌∷◌, some, arith, Ends}
use face_swap_streamer_versi.Floats.Fixed.{ℤ, pos, fixed_floats}
use face_swap_streamer_versi.Quality.{
  FrameContext, FrameResult, Metrics, pass, thresholds, beyond, scan, verdict_from_metrics,
  apply_strategy, evaluate, lowest, conclude, retry_from, retry, evaluate_with_retry,
}
use face_swap_streamer_versi.Quality.Retry.{Sound, evaluate_with_retry-Sound}

abbrev frame : FrameContext ℤ
frame = record {
  frame_idx = 7;
  crop_scale = pos 1000;
  detector = "primary";
  landmark_source = "current";
  restoration_strength = pos 500;
  blending_mask = "default";
  temporal_interpolate = false;
}

-- The flicker is bad at the default crop and good on a larger one.
abbrev by_crop : FrameContext ℤ → Metrics ℤ
by_crop c =
    ("flicker_score", if fixed_floats.lt (pos 1000) c.crop_scale then pos 40 else pos 600) ∷ []

program : Unit {0}
unfolding evaluate_with_retry retry retry_from conclude lowest evaluate apply_strategy
    verdict_from_metrics scan beyond thresholds
program = tt

abbrev fixed : FrameResult ℤ
fixed = record {
  frame_idx = 7;
  verdict = pass;
  flicker_score = pos 40;
  components = [];
  retry_count = 1;
  retry_strategies = "crop_larger" ∷ [];
  reasons = "crop_larger" ∷ [];
  duration_ms = pos 0;
  vram_peak_mb = 0;
}

evaluate_with_retry-frame : evaluate_with_retry by_crop 7 frame 5 ≡ some fixed
unfolding program
evaluate_with_retry-frame = refl

-- With no budget the failing verdict stands.
evaluate_with_retry_no_budget :
    evaluate_with_retry by_crop 7 frame 0 ≡ some (evaluate by_crop 7 frame)
unfolding program
evaluate_with_retry_no_budget = refl

evaluate_with_retry-Sound_example :
    Ends (Sound by_crop frame 5) (evaluate_with_retry by_crop 7 frame 5)
evaluate_with_retry-Sound_example = evaluate_with_retry-Sound by_crop 7 frame 5 (omega arith)
