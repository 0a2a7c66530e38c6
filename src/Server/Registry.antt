-- ===== src/Server/Registry.antt =====
-- server/main.py: the registry of jobs and batches with the workspace on disk, and the handlers
-- that change it. `entries` are the names in JOBS_DIR; a removal that fails is ignored by the
-- code, so which ones fail is a parameter. Handlers run one after the other, since none of them
-- awaits before it returns.
pub mod Cleanup
pub mod Create
pub mod Samples
use face_swap_streamer_versi.Prelude.{
  ℕ, zero, suc, ◌+◌, ◌*◌, ◌≡◌, refl, Bool, true, false, not, ◌||◌, ◌&&◌, ◌==◌, if◌then◌else◌, List,
  [], ◌∷◌, ◌++◌, map, Option, none, some, String, Eq, string_eq, Dict, lookup, insert, erase,
  select, any, length,
}
use face_swap_streamer_versi.Floats.{Floats, nought}
use face_swap_streamer_versi.Server.Job.{
  FilePath, JobPhase, BatchPhase, SourceSpec, Job, BatchJob, job_over, batch_over, is_done,
  is_error,
}

-- os.path.basename
pub basename : FilePath → String
basename [] = ""
basename (p ∷ []) = p
basename (p ∷ q ∷ rest) = basename (q ∷ rest)

abbrev pub keys {ℓ} : {V : Type ℓ} → Dict String V → List String
keys = map (λ kv. kv.0)

abbrev pub member : String → List String → Bool
member s = any (λ x. string_eq.beq x s)

-- for k in list(d.keys()): if over(d[k]): del d[k]
pub sweep {ℓ} : {V : Type ℓ} → (V → Bool) → List String → Dict String V → Dict String V
sweep over [] d = d
sweep over (k ∷ ks) d =
    sweep over ks (elim (lookup k d) [ none ↦ d | some v ↦ if over v then erase k d else d ])

pub record Registry (W E : Type 0) : Type 0 where
  pub jobs : Dict String (Job W E)
  pub batches : Dict String (BatchJob W E)
  pub entries : List String

module _ {W E : Type 0} where
  abbrev pub job_closed : Job W E → Bool
  job_closed j = job_over j.phase

  abbrev pub batch_closed : BatchJob W E → Bool
  batch_closed b = batch_over b.phase

  -- active_job_dirs and active_batch_dirs, and the names that are kept.
  pub job_names : Registry W E → List String
  job_names r = map (λ kv. basename (kv.1).job_dir) (select (λ kv. not (job_closed kv.1)) r.jobs)

  pub batch_names : Registry W E → List String
  batch_names r =
      map (λ kv. basename (kv.1).batch_dir) (select (λ kv. not (batch_closed kv.1)) r.batches)

  pub kept_names : Registry W E → List String
  unfolding job_names batch_names
  kept_names r = job_names r ++ batch_names r

  pub cleanup : (String → Bool) → Registry W E → Registry W E
  unfolding sweep kept_names
  cleanup fails r = record {
    jobs = sweep job_closed (keys r.jobs) r.jobs;
    batches = sweep batch_closed (keys r.batches) r.batches;
    entries = select (λ e. member e (kept_names r) || fails e) r.entries;
  }

-- The counters of `_batch_to_status`.
pub record BatchCounts : Type 0 where
  pub total_videos : ℕ
  pub done_videos : ℕ
  pub error_videos : ℕ

-- The answer of a handler: HTTPException by its status, or a value.
pub data Response (A : Type 0) : Type 0 where
  http_error : ℕ → Response A
  reply : A → Response A

-- What a request brings: the uploads' names, the ids that uuid4 gives, and whether every source
-- image has a face.
pub record Upload (E : Type 0) : Type 0 where
  pub sources : List FilePath
  pub detected : Option (List (SourceSpec E))

module _ {W E : Type 0} ⦃f : Floats W⦄ where
  -- worker.Job(...) with its defaults.
  pub new_job : String → FilePath → FilePath → String → Job W E
  new_job id dir target filename = record {
    id = id;
    target_path = target;
    target_filename = filename;
    job_dir = dir;
    sources = [];
    phase = JobPhase.queued;
    message = "Queued";
    error_text = "";
    detected_gender = "";
    detected_age = 0;
    ref_frame = none;
    ref_votes = 0;
    ref_pool = 0;
    width = 0;
    height = 0;
    fps = nought;
    total_frames = 0;
    current_frame = 0;
    swap_count = 0;
    proc_fps = nought;
    finished = nought;
  }

  -- `create_job`. The directory is made, and removed again when a source has no face.
  pub create_job :
      (String → Bool)
      → Upload E
      → String
      → FilePath
      → String
      → Registry W E
      → Response String × Registry W E
  unfolding new_job cleanup
  create_job fails up id target filename r = elim up.sources [
    | [] ↦ (http_error 400, r)
    | _ ∷ _ ↦
        let r' = cleanup fails r in
        let made = record r' { entries = r'.entries ++ id ∷ [] } in
        elim up.detected [
          | none ↦ (
            http_error 400,
            record made {
              entries = select (λ e. not (string_eq.beq e id) || fails e) made.entries;
            },
          )
          | some _ ↦ (
            reply id,
            record made { jobs = insert id (new_job id (id ∷ []) target filename) made.jobs },
          )
        ]
  ]

  -- The child jobs of a batch, from their ids, directories and files.
  pub child_jobs : List (String × FilePath × FilePath × String) → List (Job W E)
  unfolding new_job
  child_jobs = map (λ c. new_job c.0 c.1 c.2 c.3)

  pub register_all : List (Job W E) → Dict String (Job W E) → Dict String (Job W E)
  register_all [] d = d
  register_all (j ∷ js) d = register_all js (insert j.id j d)

  -- `create_batch`; the sources of the batch are bare until run_batch looks at them.
  pub create_batch :
      (String → Bool)
      → Upload E
      → String
      → List (String × FilePath × FilePath × String)
      → Registry W E
      → Response String × Registry W E
  unfolding child_jobs register_all cleanup
  create_batch fails up id targets r =
      if (length up.sources == 0) || (length targets == 0)
      then (http_error 400, r)
      else let r' = cleanup fails r in
        let made = record r' { entries = r'.entries ++ id ∷ [] } in
        let bare : FilePath → SourceSpec E = λ p. record {
          path = p;
          gender = "";
          age = 0;
          src_face = none;
          ref_emb = none;
          ref_frame = none;
          ref_votes = 0;
          ref_pool = 0;
        } in
        let batch : BatchJob W E = record {
          id = id;
          batch_dir = id ∷ [];
          sources = map bare up.sources;
          jobs = child_jobs targets;
          phase = BatchPhase.queued;
          message = "";
          finished = nought;
        } in
        elim up.detected [
          | none ↦ (
            http_error 400,
            record made {
              entries = select (λ e. not (string_eq.beq e id) || fails e) made.entries;
            },
          )
          | some _ ↦ (
            reply id,
            record made {
              batches = insert id batch made.batches;
              jobs = register_all (child_jobs targets) made.jobs;
            },
          )
        ]

module _ {W E : Type 0} where
  -- `get_job_status` and `get_batch_status`: which job or batch is shown.
  pub get_job_status : String → Registry W E → Response (Job W E)
  get_job_status id r = elim (lookup id r.jobs) [ none ↦ http_error 404 | some j ↦ reply j ]

  pub count_phases : List (Job W E) → ℕ × ℕ
  count_phases [] = (0, 0)
  count_phases (j ∷ js) =
      let (d, e) = count_phases js in
      if is_done j.phase then (suc d, e) else if is_error j.phase then (d, suc e) else (d, e)

  pub batch_counts : BatchJob W E → BatchCounts
  unfolding count_phases
  batch_counts b = record {
    total_videos = length b.jobs;
    done_videos = (count_phases b.jobs).0;
    error_videos = (count_phases b.jobs).1;
  }

  -- The children whose MP4 `download_batch_zip` packs: done, and the file is there.
  pub zipped : (Job W E → Bool) → BatchJob W E → List (Job W E)
  zipped has_file b = select (λ j. is_done j.phase && has_file j) b.jobs
