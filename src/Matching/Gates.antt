-- ===== src/Matching/Gates.antt =====
-- Matching.SourceTracker: what a pair must meet to be returned, and the state that is kept.
use mathlib.Core.List.{mem-append_left, mem-append_right, mem-cons_self}
use face_swap_streamer_versi.Prelude.{
  ℕ, ◌+◌, ◌≡◌, refl, ◌⊎◌, inl, inr, ◌≢◌, true, ◌==◌, List, [], ◌∷◌, Mem, none, some, arith, All,
  All-append, Bool-cases, Option-cases, OnSome,
}
use face_swap_streamer_versi.Floats.{Floats, IsIeee, ◌≼◌}
use face_swap_streamer_versi.Matching.Rule.{
  NumpyLaws, Justified, primaries_ind, extras_ind, match_inversion,
}
use face_swap_streamer_versi.Matching.{
  Box, Sims, Numpy, SourceTracker, Board, warm, bbox_iou, overlaps, empty_board, acceptable, assign,
  force, extras, primaries, match, settle,
}

module _ {W : Type 0} ⦃f : Floats W⦄ (t : SourceTracker W) (m : Sims W) (bboxes : ℕ → Box W) where
  -- The face overlaps the box at which a warm source was last seen.
  abbrev pub CarriedOver : ℕ → ℕ → Type 0
  CarriedOver ti si =
      (warm t si ≡ true)
      × ((last : Box W) × (t.last_bbox si ≡ some last) × (t.iou_gate ≼ bbox_iou (bboxes ti) last))

  abbrev pub Supported : ℕ × ℕ → Type 0
  Supported (ti, si) = (t.ref_thresh ≼ m.at ti si) ⊎ CarriedOver ti si

  -- A source has a primary face, at the box that is kept of it, or it stands in no pick.
  abbrev Explained : Board W → Type 0
  Explained w =
      (si : ℕ)
      → (w.primary si ≡ none) × All (λ p. p.1 ≢ si) w.picks
        ⊎ ((ti : ℕ) × Mem (ti, si) w.picks × (w.primary si ≡ some (bboxes ti)))

  acceptable-Supported :
      (ti si : ℕ) → m.faces ≢ m.sources → acceptable t m bboxes ti si ≡ true → Supported (ti, si)
  unfolding acceptable force overlaps
  acceptable-Supported ti si other h = elim (Option-cases (t.last_bbox si)) [
    | inl absent ↦ inl (ground arith)
    | inr (last, here) ↦ elim (Bool-cases (f.le t.ref_thresh (m.at ti si))) [
      | inl good ↦ inl good
      | inr poor ↦ inr (ground arith, (last, here, ground arith))
    ]
  ]

  Justified-Supported :
      (ti si : ℕ) → m.faces ≢ m.sources → Justified t m bboxes ti si → Supported (ti, si)
  Justified-Supported ti si other (inl h) = acceptable-Supported ti si other h
  Justified-Supported ti si other (inr h) = inr h

  assign-Explained : (w : Board W) (ti si : ℕ) → Explained w → Explained (assign bboxes ti si w)
  unfolding assign
  assign-Explained w ti si h s = elim (Bool-cases (s == si)) [
    | inl same ↦
        let e : si ≡ s = ground arith in
        inr (ti, rw e (mem-append_right w.picks mem-cons_self), ground arith)
    | inr other ↦ elim (h s) [
      | inl (no_match, apart) ↦ inl (
        rw other no_match,
        All-append (λ p. p.1 ≢ s) w.picks ((ti, si) ∷ []) apart
            ((λ e. ground (arith, e, other)), tt),
      )
      | inr (tj, old, e) ↦ inr (tj, mem-append_left ((ti, si) ∷ []) old, rw other e)
    ]
  ]

module _ {W : Type 0} ⦃f : Floats W⦄ (ieee : IsIeee W) (np : Numpy W) (t : SourceTracker W)
    (m : Sims W) (bboxes : ℕ → Box W) (laws : NumpyLaws np m) where
  extras-Supported :
      m.faces ≢ m.sources
      → OnSome
          (λ w. All (Supported t m bboxes) w.picks)
          (extras np t m m.faces 0 (primaries np t m bboxes))
  unfolding assign empty_board
  extras-Supported other =
      extras_ind np t m laws (λ w. All (Supported t m bboxes) w.picks)
        (λ w ti si v _ _ _ good. All-append (Supported t m bboxes) w.picks _ v (inl good, tt))
        m.faces 0 (primaries np t m bboxes) (omega arith)
        (primaries_ind ieee np t m bboxes laws (λ w. All (Supported t m bboxes) w.picks)
          (λ w ti si v _ _ _ _ why.
            All-append (Supported t m bboxes) w.picks _ v
              (Justified-Supported t m bboxes ti si other why, tt))
          tt)

  primaries-Explained : Explained t m bboxes (primaries np t m bboxes)
  unfolding empty_board
  primaries-Explained =
      primaries_ind ieee np t m bboxes laws (Explained t m bboxes)
        (λ w ti si v _ _ _ _ _. assign-Explained t m bboxes w ti si v) (λ s. inl (refl, tt))

  -- The third phase keeps the picks of the first two, and the boxes made from them.
  abbrev Extends : Board W → Board W → Type 0
  Extends first w =
      ((si : ℕ) → w.primary si ≡ first.primary si)
      × ((p : ℕ × ℕ) → Mem p first.picks → Mem p w.picks)

  extras-Extends :
      OnSome (Extends (primaries np t m bboxes)) (extras np t m m.faces 0 (primaries np t m bboxes))
  extras-Extends =
      extras_ind np t m laws (Extends (primaries np t m bboxes))
        (λ w ti si v _ _ _ _. (v.0, λ p old. mem-append_left ((ti, si) ∷ []) (v.1 p old))) m.faces 0
        (primaries np t m bboxes) (omega arith) (λ s. refl, λ p old. old)

-- When the frame has not as many faces as the matrix has sources, each returned pair either has a
-- similarity of at least the reference threshold, or its source was warm before the call and
-- the face overlaps the source's last box by at least the gate. The float comparisons are those
-- of IEEE 754, and numpy's argsort and argmax answer with indices of the matrix.
pub match-Supported :
    {W : Type 0} ⦃f : Floats W⦄ (ieee : IsIeee W) (np : Numpy W) (t t' : SourceTracker W)
    (m : Sims W) (bboxes : ℕ → Box W) (picks : List (ℕ × ℕ))
    → NumpyLaws np m
    → m.faces ≢ m.sources
    → match np t m bboxes ≡ some (t', picks)
    → All (Supported t m bboxes) picks
match-Supported ieee np t t' m bboxes picks laws other e =
    let (w, done, _, same) = match_inversion np t t' m bboxes picks e in
    rw (← same) (rw done at (extras-Supported ieee np t m bboxes laws other))

-- After a call, each source has either been put on a face of the answer by one of the first two
-- phases, and then its last box is that face's and its miss counter is 0, or they have put it on
-- no face, and then its last box is the old one and its miss counter is one more. The float
-- comparisons are those of IEEE 754, and numpy's argsort and argmax answer with indices of the
-- matrix.
pub match-settles :
    {W : Type 0} ⦃f : Floats W⦄ (ieee : IsIeee W) (np : Numpy W) (t t' : SourceTracker W)
    (m : Sims W) (bboxes : ℕ → Box W) (picks : List (ℕ × ℕ))
    → NumpyLaws np m
    → match np t m bboxes ≡ some (t', picks)
    → (si : ℕ)
    → let first = (primaries np t m bboxes).picks in
      ((ti : ℕ) × Mem (ti, si) first
        × Mem (ti, si) picks
        × (t'.last_bbox si ≡ some (bboxes ti))
        × (t'.misses si ≡ 0))
      ⊎ All (λ p. p.1 ≢ si) first
        × (t'.last_bbox si ≡ t.last_bbox si)
        × (t'.misses si ≡ t.misses si + 1)
unfolding settle
match-settles ieee np t t' m bboxes picks laws e si =
    let (w, done, after, same) = match_inversion np t t' m bboxes picks e in
    let (kept, grown) = rw done at (extras-Extends ieee np t m bboxes laws) in
    rw (← same, ← after, kept si)
      (elim (primaries-Explained ieee np t m bboxes laws si) [
        | inl (no_match, apart) ↦ inr (apart, rw no_match refl, rw no_match refl)
        | inr (ti, first, here) ↦ inl (ti, first, grown (ti, si) first, rw here refl, rw here refl)
      ])
