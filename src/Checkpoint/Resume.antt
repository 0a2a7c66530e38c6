-- ===== src/Checkpoint/Resume.antt =====
-- Checkpoint.verify_resumable: which runs may be continued.
use face_swap_streamer_versi.Prelude.{
  ◌≡◌, refl, ◌↔◌, true, false, [], ◌∷◌, none, some, String, string_eq, Dict, lookup, length, All,
  all, arith, ◌⊎◌, inl, inr, Option-cases,
}
use face_swap_streamer_versi.Checkpoint.{
  CheckpointState, ok, resume_error, dict_eq, verify_resumable,
}

all_found :
    (a b : Dict String String)
    → (all (λ kv. elim (lookup kv.0 b) [ none ↦ false | some v ↦ string_eq.beq kv.1 v ]) a ≡ true)
      ↔ All (λ kv. lookup kv.0 b ≡ some kv.1) a
all_found [] b = (λ _. tt, λ _. refl)
all_found ((k, v) ∷ a) b = elim (Option-cases (lookup k b)) [
  | inl absent ↦ (λ h. absurd (ground (arith, absent)), λ h. cc (absent, h.0))
  | inr (w, here) ↦ (
    λ h. (ground (arith, here, string_eq.beq_iff v w), (all_found a b).0 (ground (arith, here))),
    λ h. ground (arith, here, h.0, string_eq.beq_iff v w, (all_found a b).1 h.1),
  )
]

dict_eq_iff :
    (a b : Dict String String)
    → (dict_eq a b ≡ true) ↔ ((length a ≡ length b) × All (λ kv. lookup kv.0 b ≡ some kv.1) a)
unfolding dict_eq
dict_eq_iff a b = (
  λ h. (ground arith, (all_found a b).0 (ground arith)),
  λ h. ground (arith, h.0, (all_found a b).1 h.1),
)

-- A resume is accepted exactly when the checkpoint has the current config hash and source hash,
-- and its model versions have as many entries as the current ones, each with the current value.
-- Otherwise it is refused with a ResumeError.
pub verify_resumable_iff :
    {W E : Type 0} (s : CheckpointState W E) (config_hash source_video_hash : String)
    (models : Dict String String)
    → ((verify_resumable s config_hash source_video_hash models ≡ ok tt) ↔ (
        (s.config_hash ≡ config_hash)
        × (s.source_video_hash ≡ source_video_hash)
        × (length s.model_versions ≡ length models)
        × All (λ kv. lookup kv.0 models ≡ some kv.1) s.model_versions))
      × ((verify_resumable s config_hash source_video_hash models ≡ ok tt)
          ⊎ (verify_resumable s config_hash source_video_hash models ≡ resume_error))
unfolding verify_resumable
verify_resumable_iff s c v models = ground (
  arith,
  string_eq.beq_iff s.config_hash c,
  string_eq.beq_iff s.source_video_hash v,
  dict_eq_iff s.model_versions models,
)
