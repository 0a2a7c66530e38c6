-- ===== src/Pipeline/Resume.antt =====
-- resume: which checkpoints it goes on from, and where.
use face_swap_streamer_versi.Prelude.{
  ℕ, ◌≡◌, ◌⊎◌, inl, inr, refl, List, Nodup, some, String, string_eq, Dict, All, lookup, length,
}
use face_swap_streamer_versi.Floats.{Floats}
use face_swap_streamer_versi.Checkpoint.{CheckpointState, Dir, write_checkpoint}
use face_swap_streamer_versi.Checkpoint.RoundTrip.{ids, load_checkpoint-write_checkpoint}
use face_swap_streamer_versi.Checkpoint.Resume.{verify_resumable_iff}
use face_swap_streamer_versi.Pipeline.{Kpis, Ending, raises, resume_refused, resume, settle}

-- From a checkpoint that was written for the current config and source, and for the current models,
-- a resume goes on with the written state at its next frame. From one that was written for
-- another config, another source or other models, it is refused with a ResumeError. The tracks of
-- the state have different ids.
pub resume-write_checkpoint :
    {W E : Type 0} ⦃f : Floats W⦄ (zeros : E) (rows : E → List E) (s : CheckpointState W E)
    (d : Dir W E) (config_hash source : String) (models : Dict String String)
    (execute : CheckpointState W E → ℕ → Ending (Kpis W))
    → Nodup (ids s.tracks)
    → let ending =
        resume zeros rows (some config_hash) source models (write_checkpoint s d) execute in
      ((s.config_hash ≡ config_hash)
        × (s.source_video_hash ≡ source)
        × (length s.model_versions ≡ length models)
        × All (λ kv. lookup kv.0 models ≡ some kv.1) s.model_versions
        × (ending ≡ settle (execute s s.next_frame_to_process)))
      ⊎ (¬ (
            (s.config_hash ≡ config_hash)
            × (s.source_video_hash ≡ source)
            × (length s.model_versions ≡ length models)
            × All (λ kv. lookup kv.0 models ≡ some kv.1) s.model_versions)
          × (ending ≡ raises resume_refused))
unfolding resume
resume-write_checkpoint zeros rows s d config_hash source models execute distinct =
    let loaded = load_checkpoint-write_checkpoint zeros rows s d distinct in
    let verdict = verify_resumable_iff s config_hash source models in
    elim verdict.1 [
      | inl good ↦
          let c = (verdict.0).0 good in inl (c.0, c.1, c.2, c.3, rw (loaded, resume, good) refl)
      | inr bad ↦ inr (λ c. cc (bad, (verdict.0).1 c), rw (loaded, resume, bad) refl)
    ]
