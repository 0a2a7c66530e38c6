-- ===== src/Checkpoint/Samples.antt =====
-- Checkpoint: a state with two tracks, and the theorems at it.
use mathlib.Core.List.{Nodup-cons, Nodup-nil, not-mem-nil, mem-cons}
use mathlib.Core.Logic.Or
use mathlib.Core.HLevel.{⊥_prop}
use face_swap_streamer_versi.Prelude.{ℕ, ◌≡◌, true, List, [], ◌∷◌, Nodup, arith, string_eq, ◌<◌}
use face_swap_streamer_versi.Types.{hero, heroine, BBox, TrackState}
use face_swap_streamer_versi.Checkpoint.{
  CheckpointState, Dir, absent, whole, ok, load_checkpoint, write_checkpoint, serializable, arrays,
}
use face_swap_streamer_versi.Checkpoint.RoundTrip.{ids, load_checkpoint-write_checkpoint}
use face_swap_streamer_versi.Checkpoint.Crash.{interrupted, Survives, interrupted-Survives}

abbrev box : BBox ℕ
box = record { x1 = 1; y1 = 2; x2 = 30; y2 = 40; score = 9 }

-- Embeddings and floats are numbers here.
abbrev first : TrackState ℕ ℕ
first = record {
  track_id = 0;
  identity = hero;
  last_embedding = 11;
  last_bbox = box;
  last_frame_seen = 99;
  embedding_history = 10 ∷ 11 ∷ [];
  velocity = (0, 1);
  confidence = 9;
  active = true;
}

abbrev second : TrackState ℕ ℕ
second = record first {
  track_id = 1;
  identity = heroine;
  embedding_history = [];
  last_embedding = 12;
}

abbrev before : CheckpointState ℕ ℕ
before = record {
  run_id = "run";
  config_hash = "c1";
  source_video_hash = "v1";
  hero_ref_hash = "";
  heroine_ref_hash = "";
  model_versions = ("swap", "s1") ∷ [];
  last_completed_frame = 99;
  next_frame_to_process = 100;
  random_seed = 42;
  tracks = first ∷ [];
  cumulative_metrics = [];
  elapsed_seconds = 5;
}

abbrev after : CheckpointState ℕ ℕ
after = record before {
  last_completed_frame = 199;
  next_frame_to_process = 200;
  tracks = first ∷ second ∷ [];
}

abbrev dir : Dir ℕ ℕ
dir = record {
  json = whole (serializable before);
  npz = whole (arrays before);
  json_tmp = absent;
  npz_tmp = absent;
}

abbrev rows : ℕ → List ℕ
rows e = e ∷ []

after_ids-Nodup : Nodup (ids after.tracks)
after_ids-Nodup = Nodup-cons.1 (
  λ m. Or.elim ⊥_prop (mem-cons.0 m) (λ e. omega arith) not-mem-nil,
  Nodup-cons.1 (not-mem-nil, Nodup-nil),
)

load_checkpoint-write_checkpoint_example :
    load_checkpoint 0 rows (write_checkpoint after dir) ≡ ok after
load_checkpoint-write_checkpoint_example =
    load_checkpoint-write_checkpoint 0 rows after dir after_ids-Nodup

interrupted-Survives_example :
    Survives after dir (interrupted after 3 dir)
    × (3 < 5 → (interrupted after 3 dir).json ≡ dir.json)
    × (3 < 5 → (interrupted after 3 dir).npz ≡ dir.npz)
    × (5 < 3 → (interrupted after 3 dir).npz ≡ whole (arrays after))
interrupted-Survives_example = interrupted-Survives after 3 dir
