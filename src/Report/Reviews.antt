-- ===== src/Report/Reviews.antt =====
-- report_generator.py and runner.py together: the figures and the exit code of a run that was not
-- resumed.
use face_swap_streamer_versi.Prelude.{
  ◌<◌, ◌≡◌, ◌↔◌, refl, sym, ◌∙◌, Bool, false, ltb→lt, lt→ltb, List, length,
}
use face_swap_streamer_versi.Floats.{Floats}
use face_swap_streamer_versi.Quality.{FrameResult}
use face_swap_streamer_versi.Pipeline.{
  exit_code_from_kpis, exit_code_from_kpis_review, human_review_required,
}
use face_swap_streamer_versi.Runner.{Engine, RunConfig, Runner}
use face_swap_streamer_versi.Runner.Frames.{execute_frames}
use face_swap_streamer_versi.Runner.Frames.Log.{execute_frames-lines}
use face_swap_streamer_versi.Runner.Frames.Review.{execute_frames-Reviewed}
use face_swap_streamer_versi.Report.{Python, compute_kpis, hand_on, n_review, n_fail}

module _ {W I K T : Type 0} ⦃f : Floats W⦄ (engine : Engine W I K T) (cfg : RunConfig W)
    (py : Python W) where
  compute_kpis-frames :
      (rows : List (FrameResult W)) → (compute_kpis py rows).n_frames ≡ length rows
  unfolding compute_kpis
  compute_kpis-frames rows = refl

  hand_on-flag :
      (rows : List (FrameResult W)) (b : Bool) → (hand_on py rows b).had_manual_review ≡ b
  unfolding hand_on
  hand_on-flag rows b = refl

  -- A run from the first frame, by a runner whose review flag is down, reports as many frames as
  -- the video has, has no line that fails, and exits with HUMAN_REVIEW_REQUIRED just when some line
  -- of its log is over budget.
  pub fresh_run-reports :
      (frames : List I) (r : Runner W I K T)
      → r.had_manual_review ≡ false
      → let t = execute_frames engine cfg frames 0 r in
        ((compute_kpis py t.quality).n_frames ≡ length frames)
        × (n_fail t.quality ≡ 0)
        × ((exit_code_from_kpis (hand_on py t.quality t.had_manual_review) ≡ human_review_required)
            ↔ (0 < n_review t.quality))
  fresh_run-reports frames r down =
      let t = execute_frames engine cfg frames 0 r in
      let h = execute_frames-Reviewed engine cfg frames r down in
      let (to, from) = exit_code_from_kpis_review (hand_on py t.quality t.had_manual_review) in
      let flag = hand_on-flag t.quality t.had_manual_review in
      (
        compute_kpis-frames t.quality ∙ execute_frames-lines engine cfg frames r,
        h.no_fail,
        (
          λ e. ltb→lt 0 _ (sym h.flagged ∙ sym flag ∙ to e),
          λ lt. from (flag ∙ h.flagged ∙ lt→ltb 0 _ lt),
        ),
      )
