-- ===== src/Server/Job.antt =====
-- The dataclasses of server/worker.py and the phases of server/schemas.py. A path is its list of
-- components below JOBS_DIR. An observer (`on_change`) is seen through the states that it is
-- called with; faces and embeddings are values of a type `E`.
use face_swap_streamer_versi.Prelude.{ℕ, Bool, true, false, List, Option, String}

pub data JobPhase : Type 0 where
  queued loading_models detecting_source finding_reference streaming finalising done error :
      JobPhase

pub data BatchPhase : Type 0 where
  queued processing done error : BatchPhase

abbrev pub FilePath : Type 0
FilePath = List String

pub record SourceSpec (E : Type 0) : Type 0 where
  pub path : FilePath
  pub gender : String
  pub age : ℕ
  pub src_face : Option E
  pub ref_emb : Option E
  -- -1 is `none`.
  pub ref_frame : Option ℕ
  pub ref_votes : ℕ
  pub ref_pool : ℕ

pub record Job (W E : Type 0) : Type 0 where
  pub id : String
  pub target_path : FilePath
  pub target_filename : String
  pub job_dir : FilePath
  pub sources : List (SourceSpec E)
  pub phase : JobPhase
  pub message : String
  pub error_text : String
  pub detected_gender : String
  pub detected_age : ℕ
  pub ref_frame : Option ℕ
  pub ref_votes : ℕ
  pub ref_pool : ℕ
  pub width : ℕ
  pub height : ℕ
  pub fps : W
  pub total_frames : ℕ
  pub current_frame : ℕ
  pub swap_count : ℕ
  pub proc_fps : W
  pub finished : W

pub record BatchJob (W E : Type 0) : Type 0 where
  pub id : String
  pub batch_dir : FilePath
  pub sources : List (SourceSpec E)
  pub jobs : List (Job W E)
  pub phase : BatchPhase
  pub message : String
  pub finished : W

-- phase in ("done", "error")
abbrev pub job_over : JobPhase → Bool
job_over JobPhase.done = true
job_over JobPhase.error = true
job_over _ = false

abbrev pub batch_over : BatchPhase → Bool
batch_over BatchPhase.done = true
batch_over BatchPhase.error = true
batch_over _ = false

abbrev pub is_error : JobPhase → Bool
is_error JobPhase.error = true
is_error _ = false

abbrev pub is_done : JobPhase → Bool
is_done JobPhase.done = true
is_done _ = false
