-- ===== src/Runner/Frames.antt =====
-- runner.py, _frame_loop with _record_frame and _checkpoint, and the part of execute that opens the
-- quality log: anew at frame 0, and for appending on a resume.
pub mod Log
pub mod Review
use face_swap_streamer_versi.Prelude.{
  ℕ, suc, ◌+◌, ◌%◌, Bool, true, false, ltb, ◌==◌, ◌||◌, if◌then◌else◌, List, [], ◌∷◌, ◌++◌, String,
  Eq, string_eq, nat_eq, any, Dict, insert, drop, map,
}
use face_swap_streamer_versi.Floats.{Floats, nought, one}
use face_swap_streamer_versi.Matching.{Box}
use face_swap_streamer_versi.Quality.{pass, warning, fail, QualityVerdict, FrameResult, str_is}
use face_swap_streamer_versi.Observability.Metrics.{apply, inc, observe, gauge}
use face_swap_streamer_versi.Observability.Reliability.{record_frame}
use face_swap_streamer_versi.Runner.{Engine, RunConfig, Runner, Picks, detect_with_fallback}
use face_swap_streamer_versi.Runner.Attempts.{process_with_retry, is_fail}

module _ {W K : Type 0} where
  -- The last boxes of the sources, for the search by region.
  abbrev remember : Picks W K → Dict ℕ (Box W) → Dict ℕ (Box W)
  remember [] boxes = boxes
  remember ((face, si) ∷ rest) boxes = remember rest (insert si face.bbox boxes)

abbrev verdict_counter : QualityVerdict → String
verdict_counter pass = "verdict_pass"
verdict_counter warning = "verdict_warning"
verdict_counter fail = "verdict_fail"

-- `to_json_obj`, the line of quality.jsonl.
abbrev pub to_json_obj : {W : Type 0} → (W → ℕ → W) → FrameResult W → FrameResult W
to_json_obj round result = record result {
  flicker_score = round result.flicker_score 6;
  components = map (λ kv. (kv.0, round kv.1 6)) result.components;
  duration_ms = round result.duration_ms 3;
}

module _ {W I K T : Type 0} ⦃f : Floats W⦄ (engine : Engine W I K T) (cfg : RunConfig W) where
  -- `_record_frame`: the log, the reliability counters, the metrics and the image file.
  pub log_frame : FrameResult W → I → Runner W I K T → Runner W I K T
  log_frame result swapped r =
      let manual = any (λ x. str_is x "budget_exhausted") result.reasons in
      let counted =
        apply engine.top engine.bottom (inc (verdict_counter result.verdict) one) r.metrics in
      record r {
        quality = r.quality ++ to_json_obj engine.round result ∷ [];
        had_manual_review = manual || r.had_manual_review;
        reliability =
            record_frame
              (record {
                success = if is_fail result.verdict then false else true;
                manual_review = manual;
                retries = result.retry_count;
              })
              r.reliability;
        metrics =
            apply engine.top engine.bottom (observe "flicker_score" result.flicker_score) counted;
        images = r.images ++ (result.frame_idx, swapped) ∷ [];
      }

  -- `_checkpoint`, without the hashes and versions, which are the same throughout a run.
  abbrev pub checkpoint : ℕ → Runner W I K T → Runner W I K T
  checkpoint frame_idx r = record r {
    checkpoints =
        r.checkpoints
        ++ record {
          last_completed_frame = frame_idx;
          next_frame_to_process = suc frame_idx;
          flicker_mean = gauge "flicker_score" r.metrics;
        }
          ∷ [];
  }

  abbrev base_sharpen : W
  base_sharpen = if cfg.restoration_enabled then f.mul cfg.max_strength (f.dec 6 1) else nought

  -- The matching of a frame's faces: a frame without faces is passed on.
  pub find_picks : I → ℕ → Runner W I K T → Picks W K × Runner W I K T
  find_picks frame frame_idx r = elim (detect_with_fallback engine cfg frame r) [
    | [] ↦ ([], r)
    | face ∷ more ↦
        let (picks, matcher) = engine.match_faces r.matcher frame_idx (face ∷ more) in
        (picks, record r { matcher = matcher; last_bbox = remember picks r.last_bbox })
  ]

  -- One turn of the loop.
  pub do_frame : I → ℕ → Runner W I K T → Runner W I K T
  unfolding find_picks log_frame
  do_frame frame frame_idx r =
      let (picks, r1) = find_picks frame frame_idx r in
      let (result, out, r2) = process_with_retry engine cfg frame picks frame_idx base_sharpen r1 in
      let timed = record result {
        duration_ms = engine.duration frame_idx;
        vram_peak_mb = engine.vram frame_idx;
      } in
      let r3 = log_frame timed out r2 in
      if suc frame_idx % cfg.checkpoint_every == 0 then checkpoint frame_idx r3 else r3

  pub frame_loop : List I → ℕ → Runner W I K T → Runner W I K T
  unfolding do_frame
  frame_loop [] frame_idx r = r
  frame_loop (frame ∷ rest) frame_idx r =
      frame_loop rest (suc frame_idx) (do_frame frame frame_idx r)

  -- `execute`, from the opening of the log to the end of the loop; `frames` is the whole video.
  pub execute_frames : List I → ℕ → Runner W I K T → Runner W I K T
  unfolding frame_loop
  execute_frames frames start_frame r =
      frame_loop (drop start_frame frames) start_frame
        (record r { quality = if ltb 0 start_frame then r.quality else [] })
