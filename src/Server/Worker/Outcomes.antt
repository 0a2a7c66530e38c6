-- ===== src/Server/Worker/Outcomes.antt =====
-- Worker.run_single_job: how a job ends, and what its observer saw.
use face_swap_streamer_versi.Prelude.{◌≡◌, refl, ◌⊎◌, inl, inr, List, [], ◌∷◌, ◌++◌, String, arith}
use face_swap_streamer_versi.Server.Job.{JobPhase, SourceSpec, Job}
use face_swap_streamer_versi.Server.Worker.{
  Result, ok, raise, Watched, Stage, Env, set_job, ◌>>◌, assign, job_stages, announce_done,
  job_body, run_single_job,
}

pub Result-cases : (r : Result (Unit {0})) → (r ≡ ok tt) ⊎ ((e : String) × (r ≡ raise e))
Result-cases (ok x) = inl refl
Result-cases (raise e) = inr (e, refl)

-- A sequence that ends by an assignment and raises nothing leaves what the assignment makes.
then_assign :
    {W E : Type 0} (m : Stage W E) (g : Watched W E → Watched W E) (s : Watched W E)
    → ((m >> assign g) s).0 ≡ ok tt
    → (s' : Watched W E) × (((m >> assign g) s).1 ≡ g s')
then_assign m g s h = elim (Result-cases (m s).0) [
  | inl good ↦ ((m s).1, rw (good, ◌>>◌))
  | inr (e, bad) ↦ absurd (ground (arith, bad))
]

-- A body that raised nothing ends by the state that is announced as done.
job_body-done :
    {W E : Type 0} (env : Env W E) (sources : List (SourceSpec E)) (s : Watched W E)
    → (job_body env sources s).0 ≡ ok tt
    → (s' : Watched W E) × ((job_body env sources s).1 ≡ set_job (announce_done env) s')
unfolding job_body
job_body-done env sources s h =
    then_assign (job_stages env sources) (set_job (announce_done env)) s h

module _ {W E : Type 0} (env : Env W E) (sources : List (SourceSpec E)) (s : Watched W E) where
  abbrev body_result : Result (Unit {0})
  body_result = (job_body env sources s).0

  -- Whatever the models and the two stages do, `run_single_job` returns. If they raised nothing
  -- the job is done; otherwise it is in error and carries the exception's text, as its message
  -- and as its error. In both cases it has its finishing time, and the last state that the
  -- observer saw is the final one.
  pub run_single_job_ends :
      let after = run_single_job env sources s in
      ((body_result ≡ ok tt) × (after.job.phase ≡ JobPhase.done)
        ⊎ ((e : String) × (body_result ≡ raise e)
            × (after.job.phase ≡ JobPhase.error)
            × (after.job.message ≡ e)
            × (after.job.error_text ≡ e)))
      × (after.job.finished ≡ env.now)
      × ((seen : List (Job W E)) × (after.emitted ≡ seen ++ after.job ∷ []))
  unfolding run_single_job set_job announce_done
  run_single_job_ends = elim (Result-cases body_result) [
    | inl good ↦
        let (s', e) = job_body-done env sources s good in
        (
          inl (good, rw (good, run_single_job, e)),
          rw (good, run_single_job, e),
          (s'.emitted, rw (good, run_single_job, e)),
        )
    | inr (text, bad) ↦ (
      inr (text, bad, rw (bad, run_single_job), rw (bad, run_single_job), rw (bad, run_single_job)),
      rw (bad, run_single_job),
      ((job_body env sources s).1.emitted, rw (bad, run_single_job)),
    )
  ]
