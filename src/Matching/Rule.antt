-- ===== src/Matching/Rule.antt =====
-- Induction rules for the phases of `match`: what every pick keeps holds of the result.
use face_swap_streamer_versi.Prelude.{
  ℕ, zero, suc, ◌+◌, ◌<◌, ◌≡◌, refl, ◌⊎◌, inl, inr, Bool, true, false, not, ◌&&◌, ◌||◌, List, [],
  ◌∷◌, ◌++◌, Option, none, some, is_some, Mem, arith, All, Bool-cases, Option-cases, OnSome, update,
  all_below,
}
use face_swap_streamer_versi.Floats.{Floats, IsIeee, ◌≼◌}
use face_swap_streamer_versi.Matching.{
  Box, Sims, Numpy, SourceTracker, Board, warm, bbox_iou, empty_board, acceptable, assign, greedy,
  nearest, carry_one, carry_through, extra_one, extras, primaries, settle, match,
}

-- What numpy documents of `argsort` and `argmax`, as far as the tracker relies on it.
pub record NumpyLaws {W : Type 0} (np : Numpy W) (m : Sims W) : Type 0 where
  pub in_range : All (λ p. (p.0 < m.faces) × (p.1 < m.sources)) (np.argsort_desc m)
  pub covers : (i j : ℕ) → i < m.faces → j < m.sources → Mem (i, j) (np.argsort_desc m)
  pub argmax_lt : (row : ℕ → W) (n i : ℕ) → np.argmax row n ≡ some i → i < n
  pub argmax_total : (row : ℕ → W) (n : ℕ) → 0 < n → is_some (np.argmax row n) ≡ true

module _ {W : Type 0} ⦃f : Floats W⦄ (t : SourceTracker W) (m : Sims W) (bboxes : ℕ → Box W) where
  -- A free face that overlaps the box well enough.
  pub record Near (last : Box W) (taken : ℕ → Bool) (ti : ℕ) : Type 0 where
    pub below : ti < m.faces
    pub free : taken ti ≡ false
    pub overlap : t.iou_gate ≼ bbox_iou (bboxes ti) last

  -- Why a primary match is made: by similarity, or by position for a source seen lately.
  abbrev pub Justified : ℕ → ℕ → Type 0
  Justified ti si =
      (acceptable t m bboxes ti si ≡ true)
      ⊎ ((warm t si ≡ true)
          × ((last : Box W) × (t.last_bbox si ≡ some last)
              × (t.iou_gate ≼ bbox_iou (bboxes ti) last)))

  abbrev Found : Box W → (ℕ → Bool) → Option ℕ → Type 0
  Found last taken none = Unit
  Found last taken (some ti) = Near last taken ti

module _ {W : Type 0} ⦃f : Floats W⦄ (ieee : IsIeee W) (t : SourceTracker W) (m : Sims W)
    (bboxes : ℕ → Box W) where
  nearest-Found :
      (last : Box W) (taken : ℕ → Bool) (left ti : ℕ) (best : Option ℕ) (b : W)
      → ti + left ≡ m.faces
      → Found t m bboxes last taken best
      → (b ≡ t.iou_gate) ⊎ (t.iou_gate ≼ b)
      → Found t m bboxes last taken (nearest t m bboxes last taken left ti best b)
  unfolding nearest
  nearest-Found last taken zero ti best b e h g = h
  nearest-Found last taken (suc left) ti best b e h g =
      elim (Bool-cases (not (taken ti) && f.le b (bbox_iou (bboxes ti) last))) [
        | inl better ↦
            let le : b ≼ bbox_iou (bboxes ti) last = ground arith in
            let over : t.iou_gate ≼ bbox_iou (bboxes ti) last = elim g [
              | inl same ↦ rw same at le
              | inr above ↦ ieee.le_trans _ _ _ above le
            ] in
            rw better (
              nearest-Found last taken left (ti + 1) (some ti) _ (omega arith)
                (record { below = omega arith; free = ground arith; overlap = over }) (inr over))
        | inr worse ↦ rw worse (nearest-Found last taken left (ti + 1) best b (omega arith) h g)
      ]

module _ {W : Type 0} ⦃f : Floats W⦄ (ieee : IsIeee W) (np : Numpy W) (t : SourceTracker W)
    (m : Sims W) (bboxes : ℕ → Box W) (laws : NumpyLaws np m) (P : Board W → Type 0)
    (step : (w : Board W) (ti si : ℕ)
      → P w
      → w.face_taken ti ≡ false
      → w.src_used si ≡ false
      → ti < m.faces
      → si < m.sources
      → Justified t m bboxes ti si
      → P (assign bboxes ti si w)) where
  pub greedy_ind :
      (order : List (ℕ × ℕ)) (w : Board W)
      → All (λ p. (p.0 < m.faces) × (p.1 < m.sources)) order
      → P w
      → P (greedy t m bboxes order w)
  unfolding greedy
  greedy_ind [] w h p = p
  greedy_ind ((ti, si) ∷ order) w h p =
      elim (Bool-cases (w.face_taken ti || w.src_used si || not (acceptable t m bboxes ti si))) [
        | inl skip ↦ rw skip (greedy_ind order w h.1 p)
        | inr pick ↦
            let w' = assign bboxes ti si w in
            let p' : P w' =
              step w ti si p (ground arith) (ground arith) h.0.0 h.0.1 (inl (ground arith)) in
            elim (Bool-cases (all_below m.sources w'.src_used || all_below m.faces w'.face_taken)) [
              | inl full ↦ rw (pick, full) p'
              | inr more ↦ rw (pick, more) (greedy_ind order w' h.1 p')
            ]
      ]

  carry_one_ind : (si : ℕ) (w : Board W) → si < m.sources → P w → P (carry_one t m bboxes si w)
  unfolding carry_one
  carry_one_ind si w lt p = elim (Bool-cases (w.src_used si || not (warm t si))) [
    | inl skip ↦ rw skip p
    | inr cold ↦ elim (Option-cases (t.last_bbox si)) [
      | inl absent ↦ rw (cold, absent) p
      | inr (last, here) ↦
          let near =
            nearest-Found ieee t m bboxes last w.face_taken m.faces 0 none t.iou_gate (omega arith)
              tt (inl refl) in
          elim (Option-cases (nearest t m bboxes last w.face_taken m.faces 0 none t.iou_gate)) [
            | inl lost ↦ rw (cold, here, lost) p
            | inr (ti, hit) ↦
                let n : Near t m bboxes last w.face_taken ti = rw hit at near in
                rw (cold, here, hit)
                  (step w ti si p n.free (ground arith) n.below lt
                    (inr (ground arith, (last, here, n.overlap))))
          ]
    ]
  ]

  pub carry_through_ind :
      (left si : ℕ) (w : Board W)
      → si + left ≡ m.sources
      → P w
      → P (carry_through t m bboxes left si w)
  unfolding carry_through
  carry_through_ind zero si w e p = p
  carry_through_ind (suc left) si w e p =
      carry_through_ind left (si + 1) _ (omega arith) (carry_one_ind si w (omega arith) p)

  pub primaries_ind : P empty_board → P (primaries np t m bboxes)
  unfolding primaries
  primaries_ind start =
      carry_through_ind m.sources 0 _ (omega arith)
        (greedy_ind (np.argsort_desc m) empty_board laws.in_range start)

module _ {W : Type 0} ⦃f : Floats W⦄ (np : Numpy W) (t : SourceTracker W) (m : Sims W)
    (laws : NumpyLaws np m) (P : Board W → Type 0)
    (step : (w : Board W) (ti si : ℕ)
      → P w
      → w.face_taken ti ≡ false
      → ti < m.faces
      → si < m.sources
      → t.ref_thresh ≼ m.at ti si
      → P (record w {
        picks = w.picks ++ (ti, si) ∷ [];
        face_taken = update w.face_taken ti true;
      })) where
  extra_one_ind : (ti : ℕ) (w : Board W) → ti < m.faces → P w → OnSome P (extra_one np t m ti w)
  unfolding extra_one
  extra_one_ind ti w lt p = elim (Bool-cases (w.face_taken ti)) [
    | inl busy ↦ rw busy p
    | inr free ↦ elim (Option-cases (np.argmax (m.at ti) m.sources)) [
      | inl empty ↦ rw (free, empty) tt
      | inr (si, best) ↦ elim (Bool-cases (f.le t.ref_thresh (m.at ti si))) [
        | inl good ↦
            rw (free, best, good) (step w ti si p free lt (laws.argmax_lt _ _ si best) good)
        | inr poor ↦ rw (free, best, poor) p
      ]
    ]
  ]

  pub extras_ind :
      (left ti : ℕ) (w : Board W) → ti + left ≡ m.faces → P w → OnSome P (extras np t m left ti w)
  unfolding extras
  extras_ind zero ti w h p = p
  extras_ind (suc left) ti w h p =
      let one = extra_one_ind ti w (omega arith) p in
      elim (Option-cases (extra_one np t m ti w)) [
        | inl failed ↦ rw (failed, extras) tt
        | inr (w', done) ↦
            rw (done, extras) (extras_ind left (ti + 1) w' (omega arith) (rw done at one))
      ]

-- What a successful `match` computed.
pub match_inversion :
    {W : Type 0} ⦃f : Floats W⦄ (np : Numpy W) (t t' : SourceTracker W) (m : Sims W)
    (bboxes : ℕ → Box W) (picks : List (ℕ × ℕ))
    → match np t m bboxes ≡ some (t', picks)
    → (w : Board W) × (extras np t m m.faces 0 (primaries np t m bboxes) ≡ some w)
      × (settle t w ≡ t')
      × (w.picks ≡ picks)
unfolding match
match_inversion np t t' m bboxes picks e =
    elim (Option-cases (extras np t m m.faces 0 (primaries np t m bboxes))) [
      | inl failed ↦ absurd (ground (arith, failed))
      | inr (w, done) ↦ (w, done, cc done, cc done)
    ]
