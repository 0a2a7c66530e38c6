-- ===== src/Checkpoint/Crash.antt =====
-- Checkpoint.write_checkpoint, stopped after any number of its writes.
use face_swap_streamer_versi.Prelude.{ℕ, zero, suc, ◌≡◌, refl, ◌≢◌, List, take, lookup, ◌<◌, arith}
use face_swap_streamer_versi.Types.{TrackState}
use face_swap_streamer_versi.Checkpoint.{
  last, hist, key_eq, Arrays, CheckpointState, serializable, arrays, torn, whole, Dir, track_meta,
  write_steps, perform, restore_track, last_of, history_of,
}

module _ {W E : Type 0} where
  -- The scalars that two states share.
  pub record SameScalars (a b : CheckpointState W E) : Type 0 where
    pub run_id : a.run_id ≡ b.run_id
    pub config_hash : a.config_hash ≡ b.config_hash
    pub source_video_hash : a.source_video_hash ≡ b.source_video_hash
    pub hero_ref_hash : a.hero_ref_hash ≡ b.hero_ref_hash
    pub heroine_ref_hash : a.heroine_ref_hash ≡ b.heroine_ref_hash
    pub model_versions : a.model_versions ≡ b.model_versions
    pub last_completed_frame : a.last_completed_frame ≡ b.last_completed_frame
    pub next_frame_to_process : a.next_frame_to_process ≡ b.next_frame_to_process
    pub random_seed : a.random_seed ≡ b.random_seed
    pub cumulative_metrics : a.cumulative_metrics ≡ b.cumulative_metrics
    pub elapsed_seconds : a.elapsed_seconds ≡ b.elapsed_seconds

  -- A track that comes back, with the scalars of `t` and the arrays `v` and `h`.
  pub record Restored (t : TrackState W E) (v : E) (h : List E) (t' : TrackState W E) : Type 0 where
    pub same_id : t'.track_id ≡ t.track_id
    pub same_bbox : t'.last_bbox ≡ t.last_bbox
    pub same_frame : t'.last_frame_seen ≡ t.last_frame_seen
    pub embedding : t'.last_embedding ≡ v
    pub history : t'.embedding_history ≡ h

  restored :
      (zeros : E) (rows : E → List E) (arr : Arrays E) (t : TrackState W E) {v : E} {h : List E}
      → last_of zeros (lookup (last t.track_id) arr) ≡ v
      → history_of rows (lookup (hist t.track_id) arr) ≡ h
      → Restored t v h (restore_track zeros rows arr (track_meta t))
  unfolding restore_track track_meta
  restored zeros rows arr t embedding history = record {
    same_id = refl;
    same_bbox = refl;
    same_frame = refl;
    embedding = embedding;
    history = history;
  }

module _ {W E : Type 0} (s : CheckpointState W E) where
  -- The directory after the first `n` writes.
  abbrev pub interrupted : ℕ → Dir W E → Dir W E
  interrupted n d = perform (take n (write_steps s)) d

  -- How the two files of the directory `d'` come from those of `d`.
  pub data Survives (d d' : Dir W E) : Type 0 where
    old : d'.json ≡ d.json → d'.npz ≡ d.npz → Survives d d'
    mixed : d'.json ≡ whole (serializable s) → d'.npz ≡ d.npz → Survives d d'
    new : d'.json ≡ whole (serializable s) → d'.npz ≡ whole (arrays s) → Survives d d'

  -- A power loss at any point of write_checkpoint leaves state.json and state.npz both as they
  -- were, or both new and complete, or state.json new and state.npz as it was. Before the fifth
  -- write both are old, and after all six both are new.
  pub interrupted-Survives :
      (n : ℕ) (d : Dir W E)
      → Survives d (interrupted n d)
        × (n < 5 → (interrupted n d).json ≡ d.json)
        × (n < 5 → (interrupted n d).npz ≡ d.npz)
        × (5 < n → (interrupted n d).npz ≡ whole (arrays s))
  unfolding write_steps perform
  interrupted-Survives zero d = (old refl refl, λ _. refl, λ _. refl, λ h. absurd (omega arith))
  interrupted-Survives (suc zero) d =
      (old refl refl, λ _. refl, λ _. refl, λ h. absurd (omega arith))
  interrupted-Survives (suc (suc zero)) d =
      (old refl refl, λ _. refl, λ _. refl, λ h. absurd (omega arith))
  interrupted-Survives (suc (suc (suc zero))) d =
      (old refl refl, λ _. refl, λ _. refl, λ h. absurd (omega arith))
  interrupted-Survives (suc (suc (suc (suc zero)))) d =
      (old refl refl, λ _. refl, λ _. refl, λ h. absurd (omega arith))
  interrupted-Survives (suc (suc (suc (suc (suc zero))))) d = (
    mixed refl refl,
    λ h. absurd (omega arith),
    λ h. absurd (omega arith),
    λ h. absurd (omega arith),
  )
  interrupted-Survives (suc (suc (suc (suc (suc (suc zero)))))) d =
      (new refl refl, λ h. absurd (omega arith), λ h. absurd (omega arith), λ _. refl)
  interrupted-Survives (suc (suc (suc (suc (suc (suc (suc n))))))) d =
      (new refl refl, λ h. absurd (omega arith), λ h. absurd (omega arith), λ _. refl)

  -- If neither file was half written before, neither is after any number of the writes.
  pub interrupted-ne-torn :
      (n : ℕ) (d : Dir W E)
      → d.json ≢ torn
      → d.npz ≢ torn
      → ((interrupted n d).json ≢ torn) × ((interrupted n d).npz ≢ torn)
  interrupted-ne-torn n d j z = elim ((interrupted-Survives n d).0) [
    | old a b ↦ (λ e. j (cc (a, e)), λ e. z (cc (b, e)))
    | mixed a b ↦ (λ e. cc (a, e), λ e. z (cc (b, e)))
    | new a b ↦ (λ e. cc (a, e), λ e. cc (b, e))
  ]
