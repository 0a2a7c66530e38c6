-- ===== src/Types.antt =====
-- src/face_swap/types.py: the value objects that the modules exchange. Arrays (`np.ndarray`) are
-- values of a type `E` that only numpy looks into.
use face_swap_streamer_versi.Prelude.{ℕ, Bool, List, Option, if◌then◌else◌}
use face_swap_streamer_versi.Floats.{Floats, nought, fmax, fmin}

pub data Identity : Type 0 where
  hero heroine unknown : Identity

pub record BBox (W : Type 0) : Type 0 where
  pub x1 : W
  pub y1 : W
  pub x2 : W
  pub y2 : W
  pub score : W

pub record FaceDetection (W E : Type 0) : Type 0 where
  pub frame_idx : ℕ
  pub bbox : BBox W
  pub embedding : Option E

pub record TrackState (W E : Type 0) : Type 0 where
  pub track_id : ℕ
  pub identity : Identity
  pub last_embedding : E
  pub last_bbox : BBox W
  pub last_frame_seen : ℕ
  pub embedding_history : List E
  pub velocity : W × W
  pub confidence : W
  pub active : Bool

module _ {W : Type 0} ⦃f : Floats W⦄ where
  unfoldable pub area : BBox W → W
  area b = f.mul (fmax (f.sub b.x2 b.x1) nought) (fmax (f.sub b.y2 b.y1) nought)

  unfoldable pub center : BBox W → W × W
  center b = (f.div (f.add b.x1 b.x2) (f.dec 20 1), f.div (f.add b.y1 b.y2) (f.dec 20 1))

  unfoldable pub iou : BBox W → BBox W → W
  unfolding area
  iou a b =
      let iw = fmax (f.sub (fmin a.x2 b.x2) (fmax a.x1 b.x1)) nought in
      let ih = fmax (f.sub (fmin a.y2 b.y2) (fmax a.y1 b.y1)) nought in
      let inter = f.mul iw ih in
      let union = f.sub (f.add (area a) (area b)) inter in
      if f.lt nought union then f.div inter union else nought
