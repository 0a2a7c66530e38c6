-- ===== src/Tracker/Samples.antt =====
-- Tracker: one track and two detections, of which the first is its continuation.
use face_swap_streamer_versi.Prelude.{refl, true, if◌then◌else◌, List, [], ◌∷◌, none, some, arith}
use face_swap_streamer_versi.Floats.Fixed.{ℤ, pos, fixed_floats}
use face_swap_streamer_versi.Types.{hero, BBox, FaceDetection}
use face_swap_streamer_versi.Tracker.{Numpy, Track, Tracker, update}
use face_swap_streamer_versi.Tracker.Ids.{IsValid, update-IsValid}

-- Embeddings are numbers, alike if they are equal; the assignment is the diagonal.
abbrev numpy : Numpy ℤ ℤ
numpy = record {
  cos = λ a b. if fixed_floats.eq a b then pos 1000 else pos 0;
  median = λ e es. e;
  zeros = pos 0;
  linear_sum_assignment = λ rows cols cost. (0, 0) ∷ [];
}

abbrev box : BBox ℤ
box = record { x1 = pos 0; y1 = pos 0; x2 = pos 10000; y2 = pos 10000; score = pos 900 }

abbrev first : Track ℤ ℤ
first = record {
  track_id = 0;
  identity = hero;
  embeddings = pos 500 ∷ [];
  last_bbox = box;
  last_frame_seen = 3;
  velocity = (pos 0, pos 0);
  confidence = pos 900;
  active = true;
}

abbrev tracker : Tracker ℤ ℤ
tracker = record {
  w_emb = pos 700;
  match_thresh = pos 400;
  max_gap = 30;
  drift_thresh = pos 250;
  tracks = (0, first) ∷ [];
  next_id = 1;
}

tracker-IsValid : IsValid tracker
tracker-IsValid = record { named = ((refl, omega arith), tt); distinct = (refl, tt) }

abbrev seen : List (FaceDetection ℤ ℤ)
seen =
    record { frame_idx = 4; bbox = box; embedding = some (pos 500) }
    ∷ record { frame_idx = 4; bbox = box; embedding = none }
    ∷ []

update-IsValid_example : IsValid (update numpy seen 4 tracker)
update-IsValid_example = update-IsValid numpy seen 4 tracker tracker-IsValid
