-- ===== src/Routes.antt =====
-- webapp_mp.py: the routes that change JOBS and the workspace. `entries` are the names in JOBS_DIR, which exists.
-- The upload of /start takes its time between the clean-up with which it begins and the
-- registration with which it ends, so these are two steps, between which any files may be saved.
pub mod Controls
pub mod Uploads
pub mod Samples
use face_swap_streamer_versi.Prelude.{
  ℕ, zero, suc, Bool, true, false, not, ◌||◌, if◌then◌else◌, List, [], ◌∷◌, ◌++◌, map, Option, none,
  some, String, Eq, string_eq, Dict, lookup, insert, erase, select, any,
}

pub record WebJob : Type 0 where
  pub phase : String
  pub current_frame : ℕ
  pub stop_flag : Bool
  pub pause_flag : Bool

-- phase in ("done", "error")
abbrev pub terminal : WebJob → Bool
terminal j = string_eq.beq j.phase "done" || string_eq.beq j.phase "error"

abbrev pub member : String → List String → Bool
member s = any (λ x. string_eq.beq x s)

-- An answer: an error by its status, or the flag that the route tells and the current frame.
pub data Answer : Type 0 where
  refused : (status : ℕ) → Answer
  answered : (flag : Bool) (current_frame : ℕ) → Answer

pub data Control : Type 0 where
  pause resume stop : Control

-- What an accepted request does to the flags of the job.
abbrev pub control : Control → WebJob → WebJob
control pause j = record j { pause_flag = true }
control resume j = record j { pause_flag = false }
control stop j = record j { pause_flag = false; stop_flag = true }

abbrev pub told : Control → Bool
told pause = true
told resume = false
told stop = true

-- `pause_job`, `resume_job` and `stop_job`.
pub control_job : Control → String → Dict String WebJob → Answer × Dict String WebJob
control_job request job_id jobs = elim (lookup job_id jobs) [
  | none ↦ (refused 404, jobs)
  | some j ↦
      if terminal j
      then (refused 409, jobs)
      else (answered (told request) j.current_frame, insert job_id (control request j) jobs)
]

pub run_controls : String → List Control → Dict String WebJob → Dict String WebJob
unfolding control_job
run_controls job_id [] jobs = jobs
run_controls job_id (r ∷ rs) jobs = run_controls job_id rs (control_job r job_id jobs).1

pub record Workspace : Type 0 where
  pub jobs : Dict String WebJob
  pub entries : List String

-- for jid in list(JOBS.keys()): if jid not in active_ids: JOBS.pop(jid)
pub forget_terminal : Dict String WebJob → Dict String WebJob
forget_terminal [] = []
forget_terminal ((k, j) ∷ jobs) =
    if terminal j then forget_terminal jobs else (k, j) ∷ forget_terminal jobs

abbrev pub active_ids : Dict String WebJob → List String
active_ids jobs = map (λ kv. kv.0) (forget_terminal jobs)

-- `_cleanup_finished_jobs`; an entry whose removal fails stays.
pub cleanup_finished_jobs : (String → Bool) → Workspace → Workspace
unfolding forget_terminal
cleanup_finished_jobs fails w = record {
  jobs = forget_terminal w.jobs;
  entries = select (λ e. member e (active_ids w.jobs) || fails e) w.entries;
}

-- The first part of `start`: the clean-up and, if the request has a source and a target, the
-- directory of the new job.
pub begin_upload : (String → Bool) → Bool → String → Workspace → Workspace
unfolding cleanup_finished_jobs
begin_upload fails complete job_id w =
    let w' = cleanup_finished_jobs fails w in
    if complete
    then record w' {
      entries = if member job_id w'.entries then w'.entries else w'.entries ++ job_id ∷ [];
    }
    else w'

abbrev pub queued_job : WebJob
queued_job = record { phase = "queued"; current_frame = 0; stop_flag = false; pause_flag = false }

-- How `start` ends once its files are being stored.
pub data Started : Type 0 where
  redirect : Started
  server_error : Started  -- FileNotFoundError, which is not caught

-- The rest of `start` with some files still to be saved: a save opens a file in the directory of
-- the job and raises if that is gone; then the job is registered.
pub finish_upload : (left : ℕ) → String → Workspace → Started × Workspace
finish_upload zero job_id w = (redirect, record w { jobs = insert job_id queued_job w.jobs })
finish_upload (suc left) job_id w =
    let rest = finish_upload left job_id w in
    if member job_id w.entries then rest else (server_error, w)
