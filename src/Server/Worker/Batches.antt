-- ===== src/Server/Worker/Batches.antt =====
-- Worker.run_batch: how a batch and its videos end.
use face_swap_streamer_versi.Prelude.{
  ◌≡◌, refl, ◌⊎◌, inl, inr, Bool, true, false, List, [], ◌∷◌, String, All, any, Bool-cases,
}
use face_swap_streamer_versi.Server.Job.{BatchPhase, SourceSpec, Job, BatchJob, job_over, is_error}
use face_swap_streamer_versi.Server.Worker.{
  ok, raise, Watched, Env, run_single_job, run_children, finish_batch, fail_batch, share, run_batch,
}
use face_swap_streamer_versi.Server.Worker.Outcomes.{run_single_job_ends}

module _ {W E : Type 0} (env : Env W E) where
  run_single_job_over :
      (sources : List (SourceSpec E)) (s : Watched W E)
      → job_over (run_single_job env sources s).job.phase ≡ true
  run_single_job_over sources s = elim ((run_single_job_ends env sources s).0) [
    | inl (_, done) ↦ rw done
    | inr (_, _, failed, _, _) ↦ rw failed
  ]

  run_children-All :
      (sources : List (SourceSpec E)) (js : List (Job W E))
      → All (λ j. job_over j.phase ≡ true) (run_children env sources js)
  unfolding run_children
  run_children-All sources [] = tt
  run_children-All sources (j ∷ js) =
      (run_single_job_over sources (record { job = j; emitted = [] }), run_children-All sources js)

  abbrev pub failures : BatchJob W E → Bool
  failures b = any (λ j. is_error j.phase) b.jobs

  -- When the models load and every source has a face, `run_batch` runs every video to its end, and
  -- the batch is in error if some video is, and done otherwise.
  pub run_batch_ends :
      (b : BatchJob W E) (found : List (SourceSpec E))
      → env.ensure_models ≡ ok tt
      → env.detect b.sources ≡ ok found
      → let after = run_batch env b in
        All (λ j. job_over j.phase ≡ true) after.jobs
        × ((failures after ≡ true) × (after.phase ≡ BatchPhase.error)
            ⊎ (failures after ≡ false) × (after.phase ≡ BatchPhase.done))
  unfolding run_batch finish_batch
  run_batch_ends b found models faces =
      let sources = share b.sources found in
      let jobs = run_children env sources b.jobs in
      elim (Bool-cases (any (λ j. is_error j.phase) jobs)) [
        | inl some_failed ↦
            rw (models, faces, run_batch, some_failed)
              (run_children-All sources b.jobs, inl (some_failed, refl))
        | inr all_done ↦
            rw (models, faces, run_batch, all_done)
              (run_children-All sources b.jobs, inr (all_done, refl))
      ]

  -- When the models do not load, or some source has no face, the batch is in error and its videos
  -- are left exactly as they were: one that waits in the queue stays queued.
  pub run_batch_strands :
      (b : BatchJob W E) (e : String)
      → (env.ensure_models ≡ raise e)
        ⊎ (env.ensure_models ≡ ok tt) × (env.detect b.sources ≡ raise e)
      → let after = run_batch env b in
        (after.phase ≡ BatchPhase.error) × (after.message ≡ e) × (after.jobs ≡ b.jobs)
  unfolding run_batch fail_batch
  run_batch_strands b e (inl models) =
      (rw (models, run_batch), rw (models, run_batch), rw (models, run_batch))
  run_batch_strands b e (inr (models, faces)) =
      (rw (models, faces, run_batch), rw (models, faces, run_batch), rw (models, faces, run_batch))
