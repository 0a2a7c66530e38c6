-- ===== src/Checkpoint.antt =====
-- src/face_swap/checkpoint.py: what is stored, how it is written, and what a resume accepts.
-- The scalars are a record where the code has a JSON object, which json.dump and json.loads carry
-- over unchanged; the array file is a dict from `ArrayKey`, the two f-strings of the code.
pub mod RoundTrip
pub mod Crash
pub mod Resume
pub mod Samples
use face_swap_streamer_versi.Prelude.{
  ℕ, suc, ◌+◌, ◌≡◌, refl, ap, Bool, true, false, not, ◌&&◌, ◌||◌, ◌==◌, if◌then◌else◌, List, [],
  ◌∷◌, ◌++◌, map, Option, none, some, String, Eq, string_eq, arith, Dict, lookup, insert, length,
  all, take,
}
use face_swap_streamer_versi.Types.{Identity, hero, heroine, unknown, BBox, TrackState}

abbrev pub schema_version : ℕ
schema_version = 1

-- track_{id}_last and track_{id}_hist.
pub data ArrayKey : Type 0 where
  last : ℕ → ArrayKey
  hist : ℕ → ArrayKey

abbrev pub same_key : ArrayKey → ArrayKey → Bool
same_key (last i) (last j) = i == j
same_key (hist i) (hist j) = i == j
same_key _ _ = false

pub same_key_sound : (a b : ArrayKey) → same_key a b ≡ true → a ≡ b
same_key_sound (last i) (last j) h = ap last (ground arith)
same_key_sound (hist i) (hist j) h = ap hist (ground arith)
same_key_sound (last i) (hist j) h = cc
same_key_sound (hist i) (last j) h = cc

pub same_key_refl : (a : ArrayKey) → same_key a a ≡ true
same_key_refl (last i) = ground arith
same_key_refl (hist i) = ground arith

instance abbrev pub key_eq : Eq ArrayKey
key_eq = record {
  beq = same_key;
  beq_iff = λ a b. (same_key_sound a b, λ e. rw e (same_key_refl b));
}

-- An array of the npz file: one embedding, or a stack of them.
pub data Stored (E : Type 0) : Type 0 where
  single : E → Stored E
  stack : List E → Stored E

pub record CheckpointState (W E : Type 0) : Type 0 where
  pub run_id : String
  pub config_hash : String
  pub source_video_hash : String
  pub hero_ref_hash : String
  pub heroine_ref_hash : String
  pub model_versions : Dict String String
  pub last_completed_frame : ℕ
  pub next_frame_to_process : ℕ
  pub random_seed : ℕ
  pub tracks : List (TrackState W E)
  pub cumulative_metrics : Dict String W
  pub elapsed_seconds : W

pub record TrackMeta (W : Type 0) : Type 0 where
  pub track_id : ℕ
  pub identity : String
  pub last_bbox : BBox W
  pub last_frame_seen : ℕ
  pub velocity : W × W
  pub confidence : W
  pub active : Bool
  pub n_embeddings : ℕ

-- The object in state.json: the state's scalars, with the tracks' metadata.
pub record StateJson (W : Type 0) : Type 0 where
  pub version : ℕ
  pub run_id : String
  pub config_hash : String
  pub source_video_hash : String
  pub hero_ref_hash : String
  pub heroine_ref_hash : String
  pub model_versions : Dict String String
  pub last_completed_frame : ℕ
  pub next_frame_to_process : ℕ
  pub random_seed : ℕ
  pub cumulative_metrics : Dict String W
  pub elapsed_seconds : W
  pub tracks : List (TrackMeta W)

abbrev pub identity_name : Identity → String
identity_name hero = "hero"
identity_name heroine = "heroine"
identity_name unknown = "unknown"

-- `_identity`
pub identity_of : String → Identity
identity_of s =
    if string_eq.beq s "hero" then hero else if string_eq.beq s "heroine" then heroine else unknown

abbrev pub Arrays : Type 0 → Type 0
Arrays E = Dict ArrayKey (Stored E)

module _ {E : Type 0} where
  -- An empty history is not stored.
  pub store_history : ℕ → List E → Arrays E → Arrays E
  store_history i [] out = out
  store_history i (e ∷ es) out = insert (hist i) (stack (e ∷ es)) out

  -- arrays.get(f"track_{tid}_last", zeros); a stack there never occurs.
  pub last_of : E → Option (Stored E) → E
  last_of zeros (some (single e)) = e
  last_of zeros _ = zeros

  -- tuple(arrays[hist_key]), or the empty one. A lone embedding there never occurs.
  pub history_of : (E → List E) → Option (Stored E) → List E
  history_of rows none = []
  history_of rows (some (single e)) = rows e
  history_of rows (some (stack es)) = es

module _ {W E : Type 0} where
  pub track_meta : TrackState W E → TrackMeta W
  track_meta t = record {
    track_id = t.track_id;
    identity = identity_name t.identity;
    last_bbox = t.last_bbox;
    last_frame_seen = t.last_frame_seen;
    velocity = t.velocity;
    confidence = t.confidence;
    active = t.active;
    n_embeddings = length t.embedding_history;
  }

  pub serializable : CheckpointState W E → StateJson W
  unfolding track_meta
  serializable s = record {
    version = schema_version;
    run_id = s.run_id;
    config_hash = s.config_hash;
    source_video_hash = s.source_video_hash;
    hero_ref_hash = s.hero_ref_hash;
    heroine_ref_hash = s.heroine_ref_hash;
    model_versions = s.model_versions;
    last_completed_frame = s.last_completed_frame;
    next_frame_to_process = s.next_frame_to_process;
    random_seed = s.random_seed;
    cumulative_metrics = s.cumulative_metrics;
    elapsed_seconds = s.elapsed_seconds;
    tracks = map track_meta s.tracks;
  }

  -- The body of the loop of `arrays`.
  pub store_track : TrackState W E → Arrays E → Arrays E
  unfolding store_history
  store_track t out =
      store_history t.track_id t.embedding_history
        (insert (last t.track_id) (single t.last_embedding) out)

  pub store_tracks : List (TrackState W E) → Arrays E → Arrays E
  store_tracks [] out = out
  store_tracks (t ∷ ts) out = store_tracks ts (store_track t out)

  pub arrays : CheckpointState W E → Arrays E
  arrays s = store_tracks s.tracks []

-- A file: not there, half written, or with its contents.
pub data File (A : Type 0) : Type 0 where
  absent torn : File A
  whole : A → File A

pub record Dir (W E : Type 0) : Type 0 where
  pub json : File (StateJson W)
  pub npz : File (Arrays E)
  pub json_tmp : File (StateJson W)
  pub npz_tmp : File (Arrays E)

pub data Outcome (A : Type 0) : Type 0 where
  ok : A → Outcome A
  -- ResumeError, and any other exception.
  resume_error crash : Outcome A

-- Python's == on dicts, for dicts that hold each key once.
pub dict_eq : Dict String String → Dict String String → Bool
dict_eq a b =
    length a == length b
    && all (λ kv. elim (lookup kv.0 b) [ none ↦ false | some v ↦ string_eq.beq kv.1 v ]) a

module _ {W E : Type 0} where
  -- The writes of `write_checkpoint` in order; a power loss stops them anywhere. Opening for
  -- writing empties the file, and fsync returns once all of it is stored.
  pub write_steps : CheckpointState W E → List (Dir W E → Dir W E)
  unfolding serializable arrays store_tracks store_track
  write_steps s =
      (λ d. record d { json_tmp = torn })
      ∷ (λ d. record d { json_tmp = whole (serializable s) })
      ∷ (λ d. record d { npz_tmp = torn })
      ∷ (λ d. record d { npz_tmp = whole (arrays s) })
      ∷ (λ d. record d { json = d.json_tmp; json_tmp = absent })
      ∷ (λ d. record d { npz = d.npz_tmp; npz_tmp = absent })
      ∷ []

  pub perform : List (Dir W E → Dir W E) → Dir W E → Dir W E
  perform [] d = d
  perform (step ∷ steps) d = perform steps (step d)

  pub write_checkpoint : CheckpointState W E → Dir W E → Dir W E
  unfolding write_steps perform
  write_checkpoint s d = perform (write_steps s) d

  -- `zeros` is np.zeros(512), and `rows` reads a lone embedding as a history.
  pub restore_track : E → (E → List E) → Arrays E → TrackMeta W → TrackState W E
  unfolding identity_of last_of history_of
  restore_track zeros rows arr tm = record {
    track_id = tm.track_id;
    identity = identity_of tm.identity;
    last_embedding = last_of zeros (lookup (last tm.track_id) arr);
    last_bbox = tm.last_bbox;
    last_frame_seen = tm.last_frame_seen;
    embedding_history = history_of rows (lookup (hist tm.track_id) arr);
    velocity = tm.velocity;
    confidence = tm.confidence;
    active = tm.active;
  }

  pub restore : E → (E → List E) → StateJson W → Arrays E → CheckpointState W E
  unfolding restore_track
  restore zeros rows j arr = record {
    run_id = j.run_id;
    config_hash = j.config_hash;
    source_video_hash = j.source_video_hash;
    hero_ref_hash = j.hero_ref_hash;
    heroine_ref_hash = j.heroine_ref_hash;
    model_versions = j.model_versions;
    last_completed_frame = j.last_completed_frame;
    next_frame_to_process = j.next_frame_to_process;
    random_seed = j.random_seed;
    tracks = map (restore_track zeros rows arr) j.tracks;
    cumulative_metrics = j.cumulative_metrics;
    elapsed_seconds = j.elapsed_seconds;
  }

  -- A torn state.json fails to parse; a torn npz raises from numpy.
  pub load_files :
      E → (E → List E) → File (StateJson W) → File (Arrays E) → Outcome (CheckpointState W E)
  unfolding restore
  load_files zeros rows absent _ = resume_error
  load_files zeros rows torn absent = resume_error
  load_files zeros rows torn _ = resume_error
  load_files zeros rows (whole j) absent = resume_error
  load_files zeros rows (whole j) torn = if j.version == schema_version then crash else resume_error
  load_files zeros rows (whole j) (whole arr) =
      if j.version == schema_version then ok (restore zeros rows j arr) else resume_error

  pub load_checkpoint : E → (E → List E) → Dir W E → Outcome (CheckpointState W E)
  unfolding load_files
  load_checkpoint zeros rows d = load_files zeros rows d.json d.npz

  pub clear_checkpoint : Dir W E → Dir W E
  clear_checkpoint d = record d { json = absent; npz = absent }

  pub verify_resumable :
      CheckpointState W E → String → String → Dict String String → Outcome (Unit {0})
  unfolding dict_eq
  verify_resumable s config_hash source_video_hash model_versions =
      if not (string_eq.beq s.config_hash config_hash)
      then resume_error
      else if not (string_eq.beq s.source_video_hash source_video_hash)
      then resume_error
      else if not (dict_eq s.model_versions model_versions)
      then resume_error
      else ok tt
