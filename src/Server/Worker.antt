-- ===== src/Server/Worker.antt =====
-- server/worker.py: run_single_job and run_batch. The two long stages, `extract_reference_embeddings`
-- and `run_streaming`, are actions that change the job and may raise; `emitted` is what the
-- observers have been called with. An observer that raises is ignored by the code.
pub mod Outcomes
pub mod Batches
pub mod Samples
use face_swap_streamer_versi.Prelude.{
  ℕ, zero, suc, ◌+◌, ◌≡◌, refl, Bool, true, false, ◌||◌, if◌then◌else◌, List, [], ◌∷◌, ◌++◌, map,
  Option, none, some, String, any, length,
}
use face_swap_streamer_versi.Server.Job.{JobPhase, BatchPhase, SourceSpec, Job, BatchJob, is_error}

pub data Result {ℓ} (A : Type ℓ) : Type ℓ where
  ok : A → Result A
  -- An exception, by its text.
  raise : String → Result A

-- The gender, age and face of the detected sources, taken over pairwise.
pub share : {E : Type 0} → List (SourceSpec E) → List (SourceSpec E) → List (SourceSpec E)
share [] found = []
share (s ∷ ss) [] = s ∷ ss
share (s ∷ ss) (d ∷ ds) =
    record s { gender = d.gender; age = d.age; src_face = d.src_face } ∷ share ss ds

-- A job, and the states that its observer has seen, oldest first.
pub record Watched (W E : Type 0) : Type 0 where
  pub job : Job W E
  pub emitted : List (Job W E)

abbrev pub Stage : Type 0 → Type 0 → Type 0
Stage W E = Watched W E → Result (Unit {0}) × Watched W E

-- The part of a source that the jobs of a batch share.
pub fresh_source : {E : Type 0} → SourceSpec E → SourceSpec E
fresh_source s = record s { ref_emb = none; ref_frame = none; ref_votes = 0; ref_pool = 0 }

module _ {W E : Type 0} where
  -- `_set`
  pub set_job : (Job W E → Job W E) → Watched W E → Watched W E
  set_job change s = record { job = change s.job; emitted = s.emitted ++ change s.job ∷ [] }

  infixl 5 ◌>>◌
  abbrev pub ◌>>◌ : Stage W E → Stage W E → Stage W E
  ◌>>◌ m k s = let (r, s') = m s in elim r [ ok _ ↦ k s' | raise e ↦ (raise e, s') ]

  abbrev pub assign : (Watched W E → Watched W E) → Stage W E
  assign g s = (ok tt, g s)

  abbrev pub enter : JobPhase → String → Job W E → Job W E
  enter p text j = record j { phase = p; message = text }

-- What the worker does not decide itself: the clock, the models, and the two stages.
pub record Env (W E : Type 0) : Type 0 where
  pub now : W
  pub ensure_models : Result (Unit {0})
  pub extract_references : Stage W E
  pub run_streaming : Stage W E
  -- The text "All n videos done".
  pub all_done : ℕ → String
  -- detect_source_faces, on the paths of the sources.
  pub detect : List (SourceSpec E) → Result (List (SourceSpec E))

module _ {W E : Type 0} (env : Env W E) where
  -- The body of the `try` block, up to its last statement.
  pub job_stages : List (SourceSpec E) → Stage W E
  unfolding set_job fresh_source
  job_stages sources =
      assign (set_job (enter JobPhase.loading_models "Loading face-swap models…"))
      >> (λ s. (env.ensure_models, s))
      >> assign (λ s. record s { job = record (s.job) { sources = map fresh_source sources } })
      >> env.extract_references
      >> env.run_streaming

  pub announce_done : Job W E → Job W E
  announce_done j = record j {
    phase = JobPhase.done;
    message = "Done — audio + video saved";
    finished = env.now;
  }

  pub job_body : List (SourceSpec E) → Stage W E
  unfolding job_stages set_job announce_done
  job_body sources = job_stages sources >> assign (set_job announce_done)

  pub run_single_job : List (SourceSpec E) → Watched W E → Watched W E
  unfolding job_body
  run_single_job sources s =
      let (r, s') = job_body sources s in
      elim r [
        | ok _ ↦ s'
        | raise e ↦
            set_job
              (λ j. record j {
                phase = JobPhase.error;
                message = e;
                error_text = e;
                finished = env.now;
              })
              s'
      ]

  -- The loop over the child jobs, each with its own observer.
  pub run_children : List (SourceSpec E) → List (Job W E) → List (Job W E)
  unfolding run_single_job
  run_children sources [] = []
  run_children sources (j ∷ js) =
      (run_single_job sources (record { job = j; emitted = [] })).job ∷ run_children sources js

  -- The end of `run_batch`'s `try` block, with its `any(...)`.
  pub finish_batch : BatchJob W E → BatchJob W E
  finish_batch b =
      if any (λ j. is_error j.phase) b.jobs
      then record b { phase = BatchPhase.error; message = "Some videos failed"; finished = env.now }
      else record b {
        phase = BatchPhase.done;
        message = env.all_done (length b.jobs);
        finished = env.now;
      }

  pub fail_batch : String → BatchJob W E → BatchJob W E
  fail_batch e b = record b { phase = BatchPhase.error; message = e; finished = env.now }

  pub run_batch : BatchJob W E → BatchJob W E
  unfolding run_children finish_batch fail_batch share
  run_batch b =
      let b' = record b { phase = BatchPhase.processing } in
      elim env.ensure_models [
        | raise e ↦ fail_batch e b'
        | ok _ ↦ elim (env.detect b.sources) [
          | raise e ↦ fail_batch e b'
          | ok found ↦
              let sources = share b.sources found in
              finish_batch (record b' { sources = sources; jobs = run_children sources b.jobs })
        ]
      ]
