-- ===== src/Pipeline.antt =====
-- src/face_swap/pipeline.py, run and resume, with the exit codes of errors.py and the commands of
-- cli.py. What the stage runner does is an argument: how it ends. The manifest is its exit code;
-- reports and logs are left out, and so are the paths, the hashes of files and the loaded config.
pub mod Codes
pub mod Resume
pub mod Samples
use face_swap_streamer_versi.Prelude.{
  Bool-cases, inl, inr, ◌≡◌, ◌≢◌, ◌↔◌, refl, Option-cases, arith, ℕ, Bool, true, false, ◌==◌,
  if◌then◌else◌, List, Option, none, some, String, Dict,
}
use face_swap_streamer_versi.Floats.{Floats, nought}
use face_swap_streamer_versi.Checkpoint.{
  Arrays, CheckpointState, Dir, Outcome, ok, resume_error, crash, load_checkpoint, verify_resumable,
}

pub data ExitCode : Type 0 where
  success unexpected kpi_not_met human_review_required : ExitCode
  config_or_input_error model_load_error vram_exhaustion interrupted : ExitCode

pub to_ℕ : ExitCode → ℕ
to_ℕ success = 0
to_ℕ unexpected = 1
to_ℕ kpi_not_met = 2
to_ℕ human_review_required = 3
to_ℕ config_or_input_error = 10
to_ℕ model_load_error = 11
to_ℕ vram_exhaustion = 12
to_ℕ interrupted = 20

-- The classes derived from FaceSwapError.
pub data FaceSwapError : Type 0 where
  config input model_load vram detection swap_inference : FaceSwapError
  ambiguous_identity resume_refused resource_conflict : FaceSwapError

pub exit_code : FaceSwapError → ExitCode
exit_code config = config_or_input_error
exit_code input = config_or_input_error
exit_code model_load = model_load_error
exit_code vram = vram_exhaustion
exit_code detection = unexpected
exit_code swap_inference = unexpected
exit_code ambiguous_identity = unexpected
exit_code resume_refused = config_or_input_error
exit_code resource_conflict = vram_exhaustion

-- The part of the KPIs that decides: the key may be missing, and its value may be null.
pub record Kpis (W : Type 0) : Type 0 where
  pub flicker_score_median : Option (Option W)
  pub had_manual_review : Bool

-- How a call ends: it returns, raises a FaceSwapError, is interrupted from the keyboard, or raises
-- anything else.
pub data Ending (A : Type 0) : Type 0 where
  returns : A → Ending A
  raises : FaceSwapError → Ending A
  keyboard : Ending A
  crashes : Ending A

-- The manifest in the directory of the run, by its exit code.
pub data Manifest : Type 0 where
  unwritten : Manifest
  skeleton : Manifest  -- null
  coded : ExitCode → Manifest

by_median : (b : Bool) → (if b then kpi_not_met else success) ≢ human_review_required
by_median true = λ e. cc
by_median false = λ e. cc

module _ {W : Type 0} ⦃f : Floats W⦄ where
  pub exit_code_from_kpis : Kpis W → ExitCode
  exit_code_from_kpis k =
      if k.had_manual_review then human_review_required else elim k.flicker_score_median [
        | none ↦ if f.le (f.dec 8 2) nought then kpi_not_met else success
        | some none ↦ success
        | some (some median) ↦ if f.le (f.dec 8 2) median then kpi_not_met else success
      ]

  unasked :
      (k : Kpis W) → k.had_manual_review ≡ false → exit_code_from_kpis k ≢ human_review_required
  unfolding exit_code_from_kpis
  unasked k down = elim (Option-cases k.flicker_score_median) [
    | inl e ↦ rw (down, exit_code_from_kpis, e) (by_median (f.le (f.dec 8 2) nought))
    | inr (m, e) ↦ elim (Option-cases m) [
      | inl e' ↦ rw (down, exit_code_from_kpis, e, e') (λ q. cc)
      | inr (v, e') ↦ rw (down, exit_code_from_kpis, e, e') (by_median (f.le (f.dec 8 2) v))
    ]
  ]

  -- Only a run with a frame for review asks for it.
  pub exit_code_from_kpis_review :
      (k : Kpis W) → (exit_code_from_kpis k ≡ human_review_required) ↔ (k.had_manual_review ≡ true)
  unfolding exit_code_from_kpis
  exit_code_from_kpis_review k = elim (Bool-cases k.had_manual_review) [
    | inl up ↦ (λ _. up, λ _. rw (up, exit_code_from_kpis) refl)
    | inr down ↦ (λ e. absurd (unasked k down e), λ e. absurd (cc (e, down)))
  ]

  -- The variable `exit_code` of `run` when its `finally` block writes the manifest: the body and
  -- the clauses for ModelLoadError and FaceSwapError assign it, and nothing else does.
  pub recorded : ExitCode → Ending (Kpis W) → ExitCode
  unfolding exit_code exit_code_from_kpis
  recorded before (returns k) = exit_code_from_kpis k
  recorded before (raises e) = exit_code e
  recorded before keyboard = before
  recorded before crashes = before

  pub settle : Ending (Kpis W) → Ending ExitCode
  unfolding exit_code_from_kpis
  settle (returns k) = returns (exit_code_from_kpis k)
  settle (raises e) = raises e
  settle keyboard = keyboard
  settle crashes = crashes

  -- From the write of the manifest's skeleton, whose exit code is null, by how the rest before the
  -- `try` ends, and its body; the `finally` block is taken to end.
  pub run_written : Ending (Unit {0}) → Ending (Kpis W) → Manifest × Ending ExitCode
  unfolding recorded settle
  run_written (returns _) body = (coded (recorded success body), settle body)
  run_written (raises e) body = (skeleton, raises e)
  run_written keyboard body = (skeleton, keyboard)
  run_written crashes body = (skeleton, crashes)

  -- `run`, by how its parts end: what is before the manifest is written, what is between that and
  -- the `try`, and the body of the `try`.
  pub run :
      Bool → Ending (Unit {0}) → Ending (Unit {0}) → Ending (Kpis W) → Manifest × Ending ExitCode
  unfolding run_written
  run false prepare announce body = (unwritten, raises input)
  run true (returns _) announce body = run_written announce body
  run true (raises e) announce body = (unwritten, raises e)
  run true keyboard announce body = (unwritten, keyboard)
  run true crashes announce body = (unwritten, crashes)

  -- `run_cmd`: the manifest, and the code of the process. Python ends with 1 on an exception that
  -- nothing catches.
  pub run_cmd : Bool → Ending (Unit {0}) → Ending (Unit {0}) → Ending (Kpis W) → Manifest × ℕ
  unfolding run exit_code to_ℕ
  run_cmd has_video prepare announce body =
      let (manifest, ending) = run has_video prepare announce body in
      (
        manifest,
        elim ending [
          | returns c ↦ to_ℕ c
          | raises x ↦ to_ℕ (exit_code x)
          | keyboard ↦ to_ℕ interrupted
          | crashes ↦ 1
        ],
      )

  -- `resume`, from the hash of the config file, if it is there, and the current source and models.
  pub resume :
      {E : Type 0} (zeros : E) (rows : E → List E)
      → Option String
      → String
      → Dict String String
      → Dir W E
      → (CheckpointState W E → ℕ → Ending (Kpis W))
      → Ending ExitCode
  unfolding settle
  resume zeros rows none source models d execute = raises input
  resume zeros rows (some config_hash) source models d execute =
      elim (load_checkpoint zeros rows d) [
        | resume_error ↦ raises resume_refused
        | crash ↦ crashes
        | ok s ↦ elim (verify_resumable s config_hash source models) [
          | resume_error ↦ raises resume_refused
          | crash ↦ crashes
          | ok _ ↦ settle (execute s s.next_frame_to_process)
        ]
      ]
