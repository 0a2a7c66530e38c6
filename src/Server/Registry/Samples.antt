-- ===== src/Server/Registry/Samples.antt =====
-- Registry: a finished job, a running one, and a batch that failed before its video ran.
use face_swap_streamer_versi.Prelude.{
  ℕ, ◌≡◌, refl, Bool, true, false, [], ◌∷◌, none, some, String, string_eq, lookup,
}
use face_swap_streamer_versi.Floats.Fixed.{ℤ, pos, fixed_floats}
use face_swap_streamer_versi.Server.Job.{FilePath, JobPhase, BatchPhase, Job, BatchJob}
use face_swap_streamer_versi.Server.Registry.{Registry, Upload, basename, member, cleanup, new_job}
use face_swap_streamer_versi.Server.Registry.Cleanup.{cleanup_spares}

abbrev finished_job : Job ℤ ℕ
unfolding new_job
finished_job = record (new_job "j1" ("j1" ∷ []) ("j1" ∷ "target_0.mp4" ∷ []) "a.mp4") {
  phase = JobPhase.done;
}

abbrev running_job : Job ℤ ℕ
unfolding new_job
running_job = record (new_job "j2" ("j2" ∷ []) ("j2" ∷ "target_0.mp4" ∷ []) "b.mp4") {
  phase = JobPhase.streaming;
}

abbrev child : Job ℤ ℕ
unfolding new_job
child = new_job "j3" ("b1" ∷ "job_00_j3" ∷ []) ("b1" ∷ "job_00_j3" ∷ "target_0.mp4" ∷ []) "c.mp4"

abbrev failed_batch : BatchJob ℤ ℕ
failed_batch = record {
  id = "b1";
  batch_dir = "b1" ∷ [];
  sources = [];
  jobs = child ∷ [];
  phase = BatchPhase.error;
  message = "no face detected";
  finished = pos 1;
}

abbrev registry : Registry ℤ ℕ
registry = record {
  jobs = ("j1", finished_job) ∷ ("j2", running_job) ∷ ("j3", child) ∷ [];
  batches = ("b1", failed_batch) ∷ [];
  entries = "j1" ∷ "j2" ∷ "b1" ∷ "stray" ∷ [];
}

abbrev no_failure : String → Bool
no_failure _ = false

cleanup_spares_example :
    (lookup "j2" (cleanup no_failure registry).jobs ≡ some running_job)
    × (member (basename ("j2" ∷ [])) (cleanup no_failure registry).entries ≡ true)
unfolding new_job basename
cleanup_spares_example = cleanup_spares no_failure registry "j2" running_job refl refl refl

abbrev upload : Upload ℕ
upload = record { sources = ("j4" ∷ "source_0.jpg" ∷ []) ∷ []; detected = none }

abbrev target : FilePath
target = "j4" ∷ "target_0.mp4" ∷ []
