-- ===== src/Matching.antt =====
-- src/face_swap/matching.py, class SourceTracker: which source goes onto which face of a frame.
-- A per-face or per-source list of the code (`face_taken`, `misses`, ...) is a function of the
-- index, read below its length only. numpy's `argsort` and `argmax` are the record `Numpy`;
-- argmax of an empty row raises, here `none`.
pub mod Rule
pub mod Picks
pub mod Duet
pub mod Gates
pub mod Samples
use face_swap_streamer_versi.Prelude.{
  ℕ, zero, suc, ◌+◌, ◌*◌, ◌^◌, Bool, true, false, not, ◌&&◌, ◌||◌, leb, ◌==◌, if◌then◌else◌, List,
  [], ◌∷◌, ◌++◌, Option, none, some, is_some, update, all_below,
}
use face_swap_streamer_versi.Floats.{Floats, nought, fmax, fmin}

pub record Box (W : Type 0) : Type 0 where
  pub x1 : W
  pub y1 : W
  pub x2 : W
  pub y2 : W

-- The similarity of each face (row) to each source (column).
pub record Sims (W : Type 0) : Type 0 where
  pub faces : ℕ
  pub sources : ℕ
  pub at : ℕ → ℕ → W

pub record Numpy (W : Type 0) : Type 0 where
  -- The index pairs, by falling similarity.
  pub argsort_desc : Sims W → List (ℕ × ℕ)
  pub argmax : (ℕ → W) → ℕ → Option ℕ

pub record SourceTracker (W : Type 0) : Type 0 where
  pub n_sources : ℕ
  pub ref_thresh : W
  pub sticky : W
  pub carry_frames : ℕ
  pub iou_gate : W
  pub last_bbox : ℕ → Option (Box W)
  pub misses : ℕ → ℕ

-- The local variables of `match` that its three phases share.
pub record Board (W : Type 0) : Type 0 where
  pub face_taken : ℕ → Bool
  pub src_used : ℕ → Bool
  pub picks : List (ℕ × ℕ)
  pub primary : ℕ → Option (Box W)

module _ {W : Type 0} ⦃f : Floats W⦄ where
  unfoldable pub bbox_iou : Box W → Box W → W
  bbox_iou a b =
      let ix1 = fmax a.x1 b.x1 in
      let iy1 = fmax a.y1 b.y1 in
      let ix2 = fmin a.x2 b.x2 in
      let iy2 = fmin a.y2 b.y2 in
      let iw = fmax (f.sub ix2 ix1) nought in
      let ih = fmax (f.sub iy2 iy1) nought in
      let inter = f.mul iw ih in
      let aa = f.mul (fmax (f.sub a.x2 a.x1) nought) (fmax (f.sub a.y2 a.y1) nought) in
      let bb = f.mul (fmax (f.sub b.x2 b.x1) nought) (fmax (f.sub b.y2 b.y1) nought) in
      let u = f.sub (f.add aa bb) inter in if f.lt nought u then f.div inter u else nought

  -- `__init__`
  unfoldable pub new : ℕ → W → W → ℕ → W → SourceTracker W
  new n_sources ref_thresh sticky_factor carry_frames iou_gate = record {
    n_sources = n_sources;
    ref_thresh = ref_thresh;
    sticky = fmax (f.mul ref_thresh sticky_factor) (f.dec 5 2);
    carry_frames = carry_frames;
    iou_gate = iou_gate;
    last_bbox = λ _. none;
    misses = λ _. 10 ^ 9;
  }

  unfoldable pub warm : SourceTracker W → ℕ → Bool
  warm t si = leb (t.misses si) t.carry_frames && is_some (t.last_bbox si)

  -- bbox_iou(b, self.last_bbox[si]) >= gate, asked of a warm source only.
  pub overlaps : SourceTracker W → ℕ → Box W → W → Bool
  overlaps t si b gate = elim (t.last_bbox si) [
    | none ↦ false
    | some last ↦ f.le gate (bbox_iou b last)
  ]

  pub empty_board : Board W
  empty_board = record {
    face_taken = λ _. false;
    src_used = λ _. false;
    picks = [];
    primary = λ _. none;
  }

module _ {W : Type 0} where
  -- A primary match: the four assignments of phases 1 and 2.
  pub assign : (ℕ → Box W) → ℕ → ℕ → Board W → Board W
  assign bboxes ti si w = record {
    face_taken = update w.face_taken ti true;
    src_used = update w.src_used si true;
    picks = w.picks ++ (ti, si) ∷ [];
    primary = update w.primary si (some (bboxes ti));
  }

  -- The last loop: the temporal state from the primary matches.
  pub settle : SourceTracker W → Board W → SourceTracker W
  settle t w = record t {
    last_bbox = λ si. if is_some (w.primary si) then w.primary si else t.last_bbox si;
    misses = λ si. if is_some (w.primary si) then 0 else t.misses si + 1;
  }

module _ {W : Type 0} ⦃f : Floats W⦄ (t : SourceTracker W) (m : Sims W) (bboxes : ℕ → Box W) where
  pub force : Bool
  force = m.faces == m.sources

  pub acceptable : ℕ → ℕ → Bool
  unfolding overlaps
  acceptable ti si =
      force
      || f.le t.ref_thresh (m.at ti si)
      || (warm t si && f.le t.sticky (m.at ti si) && overlaps t si (bboxes ti) t.iou_gate)

  -- Phase 1, over the sorted pairs.
  pub greedy : List (ℕ × ℕ) → Board W → Board W
  greedy [] w = w
  greedy ((ti, si) ∷ order) w =
      let skip = greedy order w in
      let w' = assign bboxes ti si w in
      let go_on = greedy order w' in
      if w.face_taken ti || w.src_used si || not (acceptable ti si)
      then skip
      else if all_below m.sources w'.src_used || all_below m.faces w'.face_taken
      then w'
      else go_on

  -- Phase 2, the loop over the faces that looks for the best overlap with `last`.
  pub nearest : Box W → (ℕ → Bool) → ℕ → ℕ → Option ℕ → W → Option ℕ
  nearest last taken zero ti best best_iou = best
  nearest last taken (suc left) ti best best_iou =
      let iou = bbox_iou (bboxes ti) last in
      let better = not (taken ti) && f.le best_iou iou in
      nearest last taken left (ti + 1) (if better then some ti else best)
        (if better then iou else best_iou)

  pub carry_one : ℕ → Board W → Board W
  carry_one si w = if w.src_used si || not (warm t si) then w else elim (t.last_bbox si) [
    | none ↦ w
    | some last ↦ elim (nearest last w.face_taken m.faces 0 none t.iou_gate) [
      | none ↦ w
      | some ti ↦ assign bboxes ti si w
    ]
  ]

  pub carry_through : ℕ → ℕ → Board W → Board W
  carry_through zero si w = w
  carry_through (suc left) si w = carry_through left (si + 1) (carry_one si w)

module _ {W : Type 0} ⦃f : Floats W⦄ (np : Numpy W) (t : SourceTracker W) (m : Sims W) where
  -- Phase 3, one face.
  pub extra_one : ℕ → Board W → Option (Board W)
  extra_one ti w = if w.face_taken ti then some w else elim (np.argmax (m.at ti) m.sources) [
    | none ↦ none
    | some si ↦ some (
        if f.le t.ref_thresh (m.at ti si)
        then record w { picks = w.picks ++ (ti, si) ∷ []; face_taken = update w.face_taken ti true }
        else w)
  ]

  pub extras : ℕ → ℕ → Board W → Option (Board W)
  extras zero ti w = some w
  extras (suc left) ti w = elim (extra_one ti w) [ none ↦ none | some w' ↦ extras left (ti + 1) w' ]

module _ {W : Type 0} ⦃f : Floats W⦄ (np : Numpy W) (t : SourceTracker W) (m : Sims W)
    (bboxes : ℕ → Box W) where
  -- The board after the two primary phases.
  pub primaries : Board W
  primaries =
      carry_through t m bboxes m.sources 0 (greedy t m bboxes (np.argsort_desc m) empty_board)

  -- `none` is the ValueError of argmax, which leaves the tracker as it was.
  pub match : Option (SourceTracker W × List (ℕ × ℕ))
  unfolding primaries extras settle
  match = elim (extras np t m m.faces 0 primaries) [
    | none ↦ none
    | some w ↦ some (settle t w, w.picks)
  ]
