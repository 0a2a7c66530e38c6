-- ===== src/Tracker.antt =====
-- src/face_swap/tracker.py, _Track and Tracker. The table of tracks is a dict from the track id; a
-- detection is matched by the assignment of scipy. Means over embeddings are a parameter.
pub mod Ids
pub mod Ageing
pub mod Restore
pub mod Samples
use face_swap_streamer_versi.Prelude.{
  ℕ, zero, suc, ◌+◌, ◌-◌, max, Bool, true, false, not, ◌&&◌, ltb, ◌==◌, if◌then◌else◌, List, [],
  ◌∷◌, ◌++◌, map, Option, none, some, Eq, nat_eq, Dict, lookup, insert, any, select, length, drop,
  get_elem?,
}
use face_swap_streamer_versi.Floats.{Floats, nought, one, fmax}
use face_swap_streamer_versi.Types.{Identity, unknown, BBox, FaceDetection, TrackState, center, iou}

-- numpy on embeddings, and scipy's linear_sum_assignment on a matrix of costs.
pub record Numpy (W E : Type 0) : Type 0 where
  pub cos : E → E → W
  -- The normalised median of a stack that is not empty.
  pub median : E → List E → E
  pub zeros : E
  pub linear_sum_assignment : (rows cols : ℕ) → (ℕ → ℕ → W) → List (ℕ × ℕ)

abbrev pub emb_history_cap : ℕ
emb_history_cap = 30

pub record Track (W E : Type 0) : Type 0 where
  pub track_id : ℕ
  pub identity : Identity
  pub embeddings : List E
  pub last_bbox : BBox W
  pub last_frame_seen : ℕ
  pub velocity : W × W
  pub confidence : W
  pub active : Bool

pub record Tracker (W E : Type 0) : Type 0 where
  pub w_emb : W
  pub match_thresh : W
  pub max_gap : ℕ
  pub drift_thresh : W
  pub tracks : Dict ℕ (Track W E)
  pub next_id : ℕ

-- deque(..., maxlen=30): the oldest items go.
pub capped : {E : Type 0} → List E → List E
capped es = drop (length es - emb_history_cap) es

module _ {W E : Type 0} ⦃f : Floats W⦄ where
  -- _Track(track_id, det)
  pub begin : ℕ → FaceDetection W E → Track W E
  begin track_id det = record {
    track_id = track_id;
    identity = unknown;
    embeddings = elim det.embedding [ none ↦ [] | some e ↦ e ∷ [] ];
    last_bbox = det.bbox;
    last_frame_seen = det.frame_idx;
    velocity = (nought, nought);
    confidence = det.bbox.score;
    active = true;
  }

  pub new_track : FaceDetection W E → Tracker W E → Tracker W E
  unfolding begin
  new_track det t = record t {
    tracks = insert t.next_id (begin t.next_id det) t.tracks;
    next_id = t.next_id + 1;
  }

  pub predicted_bbox : ℕ → Track W E → BBox W
  predicted_bbox frame_idx track =
      let dt : W = f.dec (max (frame_idx - track.last_frame_seen) 1) 0 in
      let dx = f.mul (track.velocity).0 dt in
      let dy = f.mul (track.velocity).1 dt in
      record (track.last_bbox) {
        x1 = f.add track.last_bbox.x1 dx;
        y1 = f.add track.last_bbox.y1 dy;
        x2 = f.add track.last_bbox.x2 dx;
        y2 = f.add track.last_bbox.y2 dy;
      }

module _ {W E : Type 0} ⦃f : Floats W⦄ (np : Numpy W E) where
  pub median_embedding : Track W E → Option E
  median_embedding track = elim track.embeddings [ [] ↦ none | e ∷ es ↦ some (np.median e es) ]

  pub to_state : Track W E → TrackState W E
  unfolding median_embedding
  to_state track = record {
    track_id = track.track_id;
    identity = track.identity;
    last_embedding = elim (median_embedding track) [ none ↦ np.zeros | some e ↦ e ];
    last_bbox = track.last_bbox;
    last_frame_seen = track.last_frame_seen;
    embedding_history = track.embeddings;
    velocity = track.velocity;
    confidence = track.confidence;
    active = track.active;
  }

  -- emb_sim[ti, di]
  pub similarity : Track W E → FaceDetection W E → W
  unfolding median_embedding
  similarity track det = elim (median_embedding track) [
    | none ↦ nought
    | some med ↦ elim det.embedding [ none ↦ nought | some e ↦ np.cos med e ]
  ]

  -- cost[ti, di]
  pub cost : Tracker W E → ℕ → Track W E → FaceDetection W E → W
  unfolding similarity predicted_bbox
  cost t frame_idx track det =
      let overlap = iou (predicted_bbox frame_idx track) det.bbox in
      let score =
        f.add (f.mul t.w_emb (similarity track det)) (f.mul (f.sub one t.w_emb) overlap) in
      f.sub one score

  pub absorb : W → ℕ → FaceDetection W E → Track W E → Track W E
  unfolding median_embedding
  absorb drift_thresh frame_idx det track =
      let (old_cx, old_cy) = center track.last_bbox in
      let (new_cx, new_cy) = center det.bbox in
      let dt : W = f.dec (max (frame_idx - track.last_frame_seen) 1) 0 in
      let drifting : Bool = elim (median_embedding track) [
        | none ↦ false
        | some med ↦ elim det.embedding [
          | none ↦ false
          | some e ↦ f.lt drift_thresh (f.sub one (np.cos med e))
        ]
      ] in
      record {
        track_id = track.track_id;
        identity = track.identity;
        embeddings = elim det.embedding [
          | none ↦ track.embeddings
          | some e ↦ if drifting then track.embeddings else capped (track.embeddings ++ e ∷ [])
        ];
        last_bbox = det.bbox;
        last_frame_seen = frame_idx;
        velocity = (f.div (f.sub new_cx old_cx) dt, f.div (f.sub new_cy old_cy) dt);
        confidence =
            if drifting then fmax nought (f.mul track.confidence (f.dec 5 1)) else det.bbox.score;
        active = true;
      }

  -- A pair of the assignment, taken unless the similarity is low and not exactly zero.
  pub accepts : Tracker W E → Track W E → FaceDetection W E → Bool
  unfolding similarity
  accepts t track det =
      not (f.lt (similarity track det) t.match_thresh && not (f.eq (similarity track det) nought))

  -- The loop over the assignment, on the tracks as they were when the costs were taken; it
  -- collects the columns that were matched.
  pub absorb_all :
      ℕ
      → List (Track W E)
      → List (FaceDetection W E)
      → List (ℕ × ℕ)
      → List ℕ × Tracker W E
      → List ℕ × Tracker W E
  unfolding accepts absorb
  absorb_all frame_idx actives dets [] (matched, t) = (matched, t)
  absorb_all frame_idx actives dets ((r, c) ∷ pairs) (matched, t) =
      let skip = absorb_all frame_idx actives dets pairs (matched, t) in
      elim (get_elem? actives r) [
        | none ↦ skip
        | some track ↦ elim (get_elem? dets c) [
          | none ↦ skip
          | some det ↦
              let t' : Tracker W E = record t {
                tracks = insert track.track_id (absorb t.drift_thresh frame_idx det track) t.tracks;
              } in
              let taken = absorb_all frame_idx actives dets pairs (c ∷ matched, t') in
              if accepts t track det then taken else skip
        ]
      ]

  -- The detections that no track took, from the column `di` on.
  pub begin_rest : List ℕ → ℕ → List (FaceDetection W E) → Tracker W E → Tracker W E
  unfolding new_track
  begin_rest matched di [] t = t
  begin_rest matched di (det ∷ dets) t =
      begin_rest matched (di + 1) dets (if any (λ c. c == di) matched then t else new_track det t)

  -- The last loop of `update`.
  pub age : ℕ → ℕ → Track W E → Track W E
  age max_gap frame_idx track =
      if ltb max_gap (frame_idx - track.last_frame_seen)
      then record track { active = false }
      else track

  pub active_list : Tracker W E → List (Track W E)
  active_list t = map (λ kv. kv.1) (select (λ kv. (kv.1).active) t.tracks)

  -- The costs as a matrix; the assignment reads it inside its bounds only.
  pub cost_at : Tracker W E → ℕ → List (Track W E) → List (FaceDetection W E) → ℕ → ℕ → W
  unfolding cost
  cost_at t frame_idx actives dets r c = elim (get_elem? actives r) [
    | none ↦ one
    | some track ↦ elim (get_elem? dets c) [ none ↦ one | some det ↦ cost t frame_idx track det ]
  ]

  -- The tracker after the matching part of `update`.
  pub matched_tracker : List (FaceDetection W E) → ℕ → Tracker W E → Tracker W E
  unfolding absorb_all begin_rest active_list cost_at
  matched_tracker dets frame_idx t =
      let actives = active_list t in
      let pairs =
        np.linear_sum_assignment (length actives) (length dets)
          (cost_at t frame_idx actives dets) in
      let (matched, t') = absorb_all frame_idx actives dets pairs ([], t) in
      if not (length dets == 0) && not (length actives == 0)
      then begin_rest matched 0 dets t'
      else begin_rest [] 0 dets t

  pub update : List (FaceDetection W E) → ℕ → Tracker W E → Tracker W E
  unfolding matched_tracker age
  update dets frame_idx t =
      let t' = matched_tracker dets frame_idx t in
      record t' { tracks = map (λ kv. (kv.0, age t'.max_gap frame_idx kv.1)) t'.tracks }

  pub all_tracks : Tracker W E → List (TrackState W E)
  unfolding to_state
  all_tracks t = map (λ kv. to_state kv.1) t.tracks

module _ {W E : Type 0} where
  pub apply_identity_map : List (ℕ × Identity) → Tracker W E → Tracker W E
  apply_identity_map [] t = t
  apply_identity_map ((tid, ident) ∷ mapping) t =
      apply_identity_map mapping (elim (lookup tid t.tracks) [
        | none ↦ t
        | some track ↦ record t { tracks = insert tid (record track { identity = ident }) t.tracks }
      ])

  -- One state of `restore`; a checkpointed state always has a last embedding.
  pub restored : TrackState W E → Track W E
  restored st = record {
    track_id = st.track_id;
    identity = st.identity;
    embeddings = elim (capped st.embedding_history) [
      | [] ↦ st.last_embedding ∷ []
      | e ∷ es ↦ e ∷ es
    ];
    last_bbox = st.last_bbox;
    last_frame_seen = st.last_frame_seen;
    velocity = st.velocity;
    confidence = st.confidence;
    active = st.active;
  }

  -- `bound` is max_id + 1.
  pub restore_from : List (TrackState W E) → ℕ → Dict ℕ (Track W E) → Tracker W E → Tracker W E
  unfolding restored
  restore_from [] bound tracks t = record t { tracks = tracks; next_id = bound }
  restore_from (st ∷ states) bound tracks t =
      restore_from states (max bound (st.track_id + 1)) (insert st.track_id (restored st) tracks) t

  pub restore : List (TrackState W E) → Tracker W E → Tracker W E
  unfolding restore_from
  restore states t = restore_from states 0 [] t
