-- ===== src/Report/Samples.antt =====
-- Report: the figures of the run of Runner/Samples.
use face_swap_streamer_versi.Prelude.{◌≡◌, ◌↔◌, ◌<◌, refl, [], ◌∷◌}
use face_swap_streamer_versi.Floats.Fixed.{fixed_floats, ℤ, pos, pos_part}
use face_swap_streamer_versi.Pipeline.{exit_code_from_kpis, human_review_required}
use face_swap_streamer_versi.Report.{Python, compute_kpis, hand_on, n_review, n_fail}
use face_swap_streamer_versi.Report.Reviews.{fresh_run-reports}
use face_swap_streamer_versi.Runner.Frames.{execute_frames}
use face_swap_streamer_versi.Runner.Samples.{engine, cfg, runner}

-- Two frames need no sorting, and the first stands for the median.
abbrev python : Python ℤ
python = record { sorted = λ xs. xs; median = λ xs. pos 50; int = λ x. pos_part x }

fresh_run-reports_example :
    ((compute_kpis python
        (execute_frames engine cfg (pos 1 ∷ pos 2 ∷ []) 0 runner).quality).n_frames
      ≡ 2)
    × (n_fail (execute_frames engine cfg (pos 1 ∷ pos 2 ∷ []) 0 runner).quality ≡ 0)
    × ((exit_code_from_kpis (
            hand_on python
              (execute_frames engine cfg (pos 1 ∷ pos 2 ∷ []) 0 runner).quality
              (execute_frames engine cfg (pos 1 ∷ pos 2 ∷ []) 0 runner).had_manual_review)
          ≡ human_review_required)
        ↔ (0 < n_review (execute_frames engine cfg (pos 1 ∷ pos 2 ∷ []) 0 runner).quality))
fresh_run-reports_example = fresh_run-reports engine cfg python (pos 1 ∷ pos 2 ∷ []) runner refl
