-- ===== src/Server/Worker/Samples.antt =====
-- Worker: a batch of two videos, the second of which has no matching face.
use face_swap_streamer_versi.Prelude.{
  ℕ, ◌≡◌, ◌⊎◌, List, [], ◌∷◌, ◌++◌, none, some, String, string_eq, if◌then◌else◌,
}
use face_swap_streamer_versi.Server.Job.{JobPhase, BatchPhase, SourceSpec, Job, BatchJob}
use face_swap_streamer_versi.Server.Worker.{
  ok, raise, Watched, Stage, Env, set_job, enter, job_body, run_single_job,
}
use face_swap_streamer_versi.Server.Worker.Outcomes.{run_single_job_ends}

abbrev source : SourceSpec ℕ
source = record {
  path = "b1" ∷ "sources" ∷ "source_0.jpg" ∷ [];
  gender = "";
  age = 0;
  src_face = none;
  ref_emb = none;
  ref_frame = none;
  ref_votes = 0;
  ref_pool = 0;
}

abbrev found : List (SourceSpec ℕ)
found = record source { gender = "F"; age = 30; src_face = some 7 } ∷ []

abbrev job : String → Job ℕ ℕ
job id = record {
  id = id;
  target_path = "b1" ∷ id ∷ "target_0.mp4" ∷ [];
  target_filename = "clip.mp4";
  job_dir = "b1" ∷ id ∷ [];
  sources = [];
  phase = JobPhase.queued;
  message = "Queued";
  error_text = "";
  detected_gender = "";
  detected_age = 0;
  ref_frame = none;
  ref_votes = 0;
  ref_pool = 0;
  width = 0;
  height = 0;
  fps = 0;
  total_frames = 0;
  current_frame = 0;
  swap_count = 0;
  proc_fps = 0;
  finished = 0;
}

-- The scan for reference faces fails on the video "two".
abbrev scan : Stage ℕ ℕ
scan s =
    if string_eq.beq s.job.id "two"
    then (raise "no F face found in the video", s)
    else (ok tt, set_job (enter JobPhase.finding_reference "Scanning") s)

abbrev env : Env ℕ ℕ
env = record {
  now = 50;
  ensure_models = ok tt;
  extract_references = scan;
  run_streaming = λ s. (ok tt, set_job (enter JobPhase.streaming "Streaming") s);
  detect = λ _. ok found;
  all_done = λ _. "All 2 videos done";
}

abbrev start : Watched ℕ ℕ
start = record { job = job "two"; emitted = [] }

abbrev batch : BatchJob ℕ ℕ
batch = record {
  id = "b1";
  batch_dir = "b1" ∷ [];
  sources = source ∷ [];
  jobs = job "one" ∷ job "two" ∷ [];
  phase = BatchPhase.queued;
  message = "";
  finished = 0;
}

run_single_job_ends_example :
    let after = run_single_job env found start in
    (((job_body env found start).0 ≡ ok tt) × (after.job.phase ≡ JobPhase.done)
      ⊎ ((e : String) × ((job_body env found start).0 ≡ raise e)
          × (after.job.phase ≡ JobPhase.error)
          × (after.job.message ≡ e)
          × (after.job.error_text ≡ e)))
    × (after.job.finished ≡ 50)
    × ((seen : List (Job ℕ ℕ)) × (after.emitted ≡ seen ++ after.job ∷ []))
run_single_job_ends_example = run_single_job_ends env found start
