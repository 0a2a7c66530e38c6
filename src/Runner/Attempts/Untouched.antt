-- ===== src/Runner/Attempts/Untouched.antt =====
-- runner.py, _process_with_retry: the attempts at a frame leave the log and the checkpoints alone.
use face_swap_streamer_versi.Prelude.{
  false, Bool-cases, ℕ, ◌≡◌, refl, ◌∙◌, List, [], ◌∷◌, String, Dict, inl, inr, List-cases, ltb,
  if_holds, ◌||◌, not,
}
use face_swap_streamer_versi.Floats.{Floats}
use face_swap_streamer_versi.Quality.{verdict_from_metrics, str_is}
use face_swap_streamer_versi.Runner.{
  Crop, Engine, RunConfig, Runner, Picks, Attempt, real_retry, render_faces, render_attempt,
  render_faces_alt, render_attempt_alt_mask, detect_with_fallback,
}
use face_swap_streamer_versi.Runner.Attempts.{
  Best, attempt_strategy, first_try, try_again, retry_queue, process_with_retry, report,
  commit_prev, is_fail,
}

module _ {W I K T : Type 0} where
  -- The log, the checkpoints, the metrics and the review flag of two runners agree.
  abbrev pub SameLog : Runner W I K T → Runner W I K T → Type 0
  SameLog r s =
      (r.quality ≡ s.quality)
      × (r.checkpoints ≡ s.checkpoints)
      × (r.metrics ≡ s.metrics)
      × (r.had_manual_review ≡ s.had_manual_review)

module _ {W I K T : Type 0} ⦃f : Floats W⦄ (engine : Engine W I K T) (cfg : RunConfig W) where
  render_faces_same :
      (scene sharpen : W) (faces : Picks W K) (a : Attempt W I K T)
      → SameLog (render_faces engine cfg scene sharpen faces a).runner a.runner
  unfolding render_faces
  render_faces_same scene sharpen [] a = (refl, refl, refl, refl)
  render_faces_same scene sharpen (x ∷ rest) a = render_faces_same scene sharpen rest _

  render_faces_alt_same :
      (scene sharpen : W) (faces : Picks W K) (a : Attempt W I K T)
      → SameLog (render_faces_alt engine cfg scene sharpen faces a).runner a.runner
  unfolding render_faces_alt
  render_faces_alt_same scene sharpen [] a = (refl, refl, refl, refl)
  render_faces_alt_same scene sharpen (x ∷ rest) a = render_faces_alt_same scene sharpen rest _

  render_attempt_same :
      (frame : I) (faces picks : Picks W K) (sharpen : W) (r : Runner W I K T)
      → SameLog (render_attempt engine cfg frame faces picks sharpen r).runner r
  unfolding render_attempt
  render_attempt_same frame faces picks sharpen r = render_faces_same _ sharpen faces _

  attempt_strategy_same :
      (s : String) (frame : I) (picks : Picks W K) (base_sharpen : W) (r : Runner W I K T)
      → SameLog (attempt_strategy engine cfg s frame picks base_sharpen r).runner r
  unfolding attempt_strategy render_attempt_alt_mask
  attempt_strategy_same s frame picks base_sharpen r =
      let P : (Attempt W I K T → Type 0) = λ a. SameLog a.runner r in
      let plain = render_attempt_same frame picks picks base_sharpen r in
      if_holds P (str_is s "restoration_lower") (render_attempt_same frame picks picks _ r) (
        if_holds P (str_is s "restoration_higher") (render_attempt_same frame picks picks _ r) (
          if_holds P (str_is s "landmarks_from_prev") (render_attempt_same frame _ _ base_sharpen r)
            (if_holds P (str_is s "swap_detector")
              (elim (List-cases (detect_with_fallback engine cfg frame r)) [
                | inl e ↦ rw e plain
                | inr (face, more, e) ↦ rw e (render_attempt_same frame _ picks base_sharpen r)
              ])
              (if_holds P (str_is s "blending_mask_alt")
                (render_faces_alt_same _ base_sharpen picks _) plain))))

  commit_prev_same :
      (crops : Dict ℕ (Crop W I K)) (r : Runner W I K T)
      → SameLog (commit_prev engine cfg crops r) r
  commit_prev_same [] r = (refl, refl, refl, refl)
  commit_prev_same (x ∷ rest) r = commit_prev_same rest _

  try_again_same :
      (s : String) (frame : I) (base_sharpen : W) (b : Best W I K T)
      → SameLog (try_again engine cfg s frame base_sharpen b).runner b.runner
  unfolding try_again
  try_again_same s frame base_sharpen b =
      attempt_strategy_same s frame b.picks base_sharpen b.runner

  retry_queue_same :
      (queue : List String) (frame : I) (base_sharpen : W) (b : Best W I K T)
      → SameLog (retry_queue engine cfg queue frame base_sharpen b).runner b.runner
  unfolding retry_queue
  retry_queue_same [] frame base_sharpen b = (refl, refl, refl, refl)
  retry_queue_same (s ∷ queue) frame base_sharpen b =
      let next = try_again engine cfg s frame base_sharpen b in
      let (q, c, m, h) = retry_queue_same queue frame base_sharpen next in
      let (q', c', m', h') = try_again_same s frame base_sharpen b in
      if_holds {A = Best W I K T} (λ x. SameLog x.runner b.runner)
        (not (is_fail (verdict_from_metrics b.metrics)) || not (ltb b.retries cfg.max_retry))
        (refl, refl, refl, refl) (q ∙ q', c ∙ c', m ∙ m', h ∙ h')

  pub process_with_retry_same :
      (frame : I) (picks : Picks W K) (frame_idx : ℕ) (base_sharpen : W) (r : Runner W I K T)
      → SameLog (process_with_retry engine cfg frame picks frame_idx base_sharpen r).2 r
  unfolding process_with_retry first_try
  process_with_retry_same frame picks frame_idx base_sharpen r =
      let b = first_try engine cfg frame picks base_sharpen r in
      let e = retry_queue engine cfg real_retry frame base_sharpen b in
      let (q, c, m, h) = commit_prev_same e.attempt.crops e.runner in
      let (q', c', m', h') = retry_queue_same real_retry frame base_sharpen b in
      let (q'', c'', m'', h'') = render_attempt_same frame picks picks base_sharpen r in
      (q ∙ q' ∙ q'', c ∙ c' ∙ c'', m ∙ m' ∙ m'', h ∙ h' ∙ h'')

  pub process_with_retry-index :
      (frame : I) (picks : Picks W K) (frame_idx : ℕ) (base_sharpen : W) (r : Runner W I K T)
      → (process_with_retry engine cfg frame picks frame_idx base_sharpen r).0.frame_idx ≡ frame_idx
  unfolding process_with_retry report
  process_with_retry-index frame picks frame_idx base_sharpen r = refl

  pub process_with_retry-passes :
      (frame : I) (picks : Picks W K) (frame_idx : ℕ) (base_sharpen : W) (r : Runner W I K T)
      → is_fail (process_with_retry engine cfg frame picks frame_idx base_sharpen r).0.verdict
        ≡ false
  unfolding process_with_retry report
  process_with_retry-passes frame picks frame_idx base_sharpen r =
      let b = first_try engine cfg frame picks base_sharpen r in
      let e = retry_queue engine cfg real_retry frame base_sharpen b in
      elim (Bool-cases (is_fail (verdict_from_metrics e.metrics))) [
        | inl bad ↦ rw bad refl
        | inr fine ↦ rw fine fine
      ]
