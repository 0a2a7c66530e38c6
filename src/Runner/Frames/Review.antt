-- ===== src/Runner/Frames/Review.antt =====
-- runner.py: had_manual_review against the log of the frame loop.
use face_swap_streamer_versi.Prelude.{
  ◌%◌, ℕ, suc, ◌+◌, ◌≡◌, refl, ap, sym, ◌∙◌, Bool, false, ltb, ◌==◌, if◌then◌else◌, List, [], ◌∷◌,
  ◌++◌, length, select, arith, if_holds,
}
use face_swap_streamer_versi.Floats.{Floats}
use face_swap_streamer_versi.Quality.{FrameResult}
use face_swap_streamer_versi.Report.{over_budget, n_review, n_fail}
use face_swap_streamer_versi.Runner.{Engine, RunConfig, Runner}
use face_swap_streamer_versi.Runner.Attempts.{process_with_retry, is_fail}
use face_swap_streamer_versi.Runner.Attempts.Untouched.{
  process_with_retry_same, process_with_retry-passes,
}
use face_swap_streamer_versi.Runner.Frames.{
  to_json_obj, log_frame, base_sharpen, find_picks, do_frame, frame_loop, execute_frames,
}
use face_swap_streamer_versi.Runner.Frames.Log.{find_picks_same}

module _ {W : Type 0} where
  count-snoc :
      (p : FrameResult W → Bool) (rows : List (FrameResult W)) (x : FrameResult W)
      → length (select p (rows ++ x ∷ [])) ≡ length (select p rows) + (if p x then 1 else 0)
  count-snoc p [] x = ground arith
  count-snoc p (y ∷ rows) x = ground (arith, count-snoc p rows x)

module _ {W I K T : Type 0} ⦃f : Floats W⦄ (engine : Engine W I K T) (cfg : RunConfig W) where
  -- The flag tells whether the log has a line for review, and no line fails.
  pub record Reviewed (r : Runner W I K T) : Type 0 where
    pub flagged : r.had_manual_review ≡ ltb 0 (n_review r.quality)
    pub no_fail : n_fail r.quality ≡ 0

  log_frame-Reviewed :
      (result : FrameResult W) (out : I) (r : Runner W I K T)
      → is_fail result.verdict ≡ false
      → Reviewed r
      → Reviewed (log_frame engine cfg result out r)
  unfolding log_frame
  log_frame-Reviewed result out r fine h = record {
    flagged =
        ground
          (arith, h.flagged, count-snoc over_budget r.quality (to_json_obj engine.round result));
    no_fail = ground (
      arith,
      h.no_fail,
      fine,
      count-snoc (λ x. is_fail x.verdict) r.quality (to_json_obj engine.round result),
    );
  }

  do_frame-Reviewed :
      (frame : I) (frame_idx : ℕ) (r : Runner W I K T)
      → Reviewed r
      → Reviewed (do_frame engine cfg frame frame_idx r)
  unfolding do_frame
  do_frame-Reviewed frame frame_idx r h =
      let found = find_picks engine cfg frame frame_idx r in
      let sharpen = base_sharpen engine cfg in
      let tried = process_with_retry engine cfg frame found.0 frame_idx sharpen found.1 in
      let (q0, _, _, h0) = find_picks_same engine cfg frame frame_idx r in
      let (q1, _, _, h1) =
        process_with_retry_same engine cfg frame found.0 frame_idx sharpen found.1 in
      let fine = process_with_retry-passes engine cfg frame found.0 frame_idx sharpen found.1 in
      let before : Reviewed tried.2 = record {
        flagged = (h1 ∙ h0) ∙ h.flagged ∙ ap (λ q. ltb 0 (n_review q)) (sym (q1 ∙ q0));
        no_fail = ap n_fail (q1 ∙ q0) ∙ h.no_fail;
      } in
      let timed = record (tried.0) {
        duration_ms = engine.duration frame_idx;
        vram_peak_mb = engine.vram frame_idx;
      } in
      let after = log_frame-Reviewed timed tried.1 tried.2 fine before in
      if_holds {A = Runner W I K T} Reviewed (suc frame_idx % cfg.checkpoint_every == 0)
        (record { flagged = after.flagged; no_fail = after.no_fail }) after

  pub frame_loop-Reviewed :
      (frames : List I) (frame_idx : ℕ) (r : Runner W I K T)
      → Reviewed r
      → Reviewed (frame_loop engine cfg frames frame_idx r)
  unfolding frame_loop
  frame_loop-Reviewed [] frame_idx r h = h
  frame_loop-Reviewed (frame ∷ rest) frame_idx r h =
      frame_loop-Reviewed rest (suc frame_idx) _ (do_frame-Reviewed frame frame_idx r h)

  pub execute_frames-Reviewed :
      (frames : List I) (r : Runner W I K T)
      → r.had_manual_review ≡ false
      → Reviewed (execute_frames engine cfg frames 0 r)
  unfolding execute_frames
  execute_frames-Reviewed frames r down =
      frame_loop-Reviewed frames 0 (record r { quality = [] })
        (record { flagged = down; no_fail = refl })
