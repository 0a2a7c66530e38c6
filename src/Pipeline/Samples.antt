-- ===== src/Pipeline/Samples.antt =====
-- Pipeline: a resume of a written checkpoint.
use face_swap_streamer_versi.Prelude.{
  ℕ, ◌≡◌, ◌⊎◌, false, [], ◌∷◌, some, String, string_eq, Dict, All, lookup, length,
}
use mathlib.Core.List.{Nodup-nil}
use face_swap_streamer_versi.Floats.Fixed.{ℤ, pos, fixed_floats}
use face_swap_streamer_versi.Checkpoint.{CheckpointState, Dir, absent, write_checkpoint}
use face_swap_streamer_versi.Pipeline.{
  Kpis, Ending, returns, raises, resume, resume_refused, settle,
}
use face_swap_streamer_versi.Pipeline.Resume.{resume-write_checkpoint}

abbrev good : Ending (Kpis ℤ)
good = returns (record { flicker_score_median = some (some (pos 40)); had_manual_review = false })

abbrev saved : CheckpointState ℤ ℕ
saved = record {
  run_id = "r1";
  config_hash = "c1";
  source_video_hash = "v1";
  hero_ref_hash = "h";
  heroine_ref_hash = "g";
  model_versions = ("swap", "1.0") ∷ [];
  last_completed_frame = 99;
  next_frame_to_process = 100;
  random_seed = 42;
  tracks = [];
  cumulative_metrics = [];
  elapsed_seconds = pos 5000;
}

abbrev empty : Dir ℤ ℕ
empty = record { json = absent; npz = absent; json_tmp = absent; npz_tmp = absent }

abbrev models : Dict String String
models = ("swap", "1.0") ∷ []

abbrev execute : CheckpointState ℤ ℕ → ℕ → Ending (Kpis ℤ)
execute s start = good

resume-write_checkpoint_example :
    let ending =
      resume 0 (λ e. e ∷ []) (some "c1") "v2" models (write_checkpoint saved empty) execute in
    ((saved.config_hash ≡ "c1")
      × (saved.source_video_hash ≡ "v2")
      × (length saved.model_versions ≡ length models)
      × All (λ kv. lookup kv.0 models ≡ some kv.1) saved.model_versions
      × (ending ≡ settle (execute saved 100)))
    ⊎ (¬ (
          (saved.config_hash ≡ "c1")
          × (saved.source_video_hash ≡ "v2")
          × (length saved.model_versions ≡ length models)
          × All (λ kv. lookup kv.0 models ≡ some kv.1) saved.model_versions)
        × (ending ≡ raises resume_refused))
resume-write_checkpoint_example =
    resume-write_checkpoint 0 (λ e. e ∷ []) saved empty "c1" "v2" models execute Nodup-nil
