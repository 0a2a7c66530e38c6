-- ===== src/Matching/Picks.antt =====
-- Matching.SourceTracker: the shape of what `match` returns.
use mathlib.Core.List.{not-mem-nil, Nodup-nil, map-append}
use mathlib.Core.Bool.{Bool-set}
use face_swap_streamer_versi.Prelude.{
  ℕ, zero, suc, ◌+◌, ◌<◌, ◌≡◌, refl, inl, inr, true, false, List, [], ◌∷◌, ◌++◌, map, Mem, Nodup,
  some, is_some, arith, All, All-append, Nodup-snoc, mem-snoc_elim, update, Option-cases, OnSome,
}
use face_swap_streamer_versi.Floats.{Floats, IsIeee}
use face_swap_streamer_versi.Matching.Rule.{NumpyLaws, primaries_ind, extras_ind, match_inversion}
use face_swap_streamer_versi.Matching.{
  Box, Sims, Numpy, SourceTracker, Board, empty_board, assign, extra_one, extras, primaries, match,
}

abbrev pub faces_of : List (ℕ × ℕ) → List ℕ
faces_of = map (λ p. p.0)

abbrev pub sources_of : List (ℕ × ℕ) → List ℕ
sources_of = map (λ p. p.1)

module _ {W : Type 0} where
  pub record Inv (m : Sims W) (w : Board W) : Type 0 where
    pub nodup : Nodup (faces_of w.picks)
    pub taken : (ti : ℕ) → Mem ti (faces_of w.picks) → w.face_taken ti ≡ true
    pub in_range : All (λ p. (p.0 < m.faces) × (p.1 < m.sources)) w.picks

  -- A pick of a free face keeps the invariant, whatever else changes.
  push-Inv :
      (m : Sims W) (w w' : Board W) (ti si : ℕ)
      → Inv m w
      → w.face_taken ti ≡ false
      → ti < m.faces
      → si < m.sources
      → w'.picks ≡ w.picks ++ (ti, si) ∷ []
      → w'.face_taken ≡ update w.face_taken ti true
      → Inv m w'
  push-Inv m w w' ti si v free ht hs e k = record {
    nodup =
        rw (e, map-append)
          (Nodup-snoc (faces_of w.picks) ti v.nodup (λ h. cc (v.taken ti h, free)));
    taken = λ t h.
        let h' : Mem t (faces_of w.picks ++ ti ∷ []) = rw (e, map-append) at h in
        rw k (
          mem-snoc_elim (Bool-set _ _) (faces_of w.picks) h' (λ old. ground (arith, v.taken t old))
            (λ n. ground arith));
    in_range =
        rw e (
          All-append (λ p. (p.0 < m.faces) × (p.1 < m.sources)) w.picks _ v.in_range
            ((ht, hs), tt));
  }

  empty_board-Inv : (m : Sims W) ⦃f : Floats W⦄ → Inv m empty_board
  unfolding empty_board
  empty_board-Inv m = record {
    nodup = Nodup-nil;
    taken = λ ti h. absurd (not-mem-nil h);
    in_range = tt;
  }

module _ {W : Type 0} ⦃f : Floats W⦄ (ieee : IsIeee W) (np : Numpy W) (t : SourceTracker W)
    (m : Sims W) (bboxes : ℕ → Box W) (laws : NumpyLaws np m) where
  pub primaries-Inv : Inv m (primaries np t m bboxes)
  unfolding assign
  primaries-Inv =
      primaries_ind ieee np t m bboxes laws (Inv m)
        (λ w ti si v free unused ht hs _. push-Inv m w _ ti si v free ht hs refl refl)
        (empty_board-Inv m)

  pub extras-Inv : OnSome (Inv m) (extras np t m m.faces 0 (primaries np t m bboxes))
  extras-Inv =
      extras_ind np t m laws (Inv m)
        (λ w ti si v free ht hs _. push-Inv m w _ ti si v free ht hs refl refl) m.faces 0
        (primaries np t m bboxes) (omega arith) primaries-Inv

-- In the answer of `match` no face stands twice, and every pair names a face and a source of the
-- frame's similarity matrix. The float comparisons are those of IEEE 754, and numpy's argsort
-- and argmax answer with indices of the matrix.
pub match-one_source_per_face :
    {W : Type 0} ⦃f : Floats W⦄ (ieee : IsIeee W) (np : Numpy W) (t t' : SourceTracker W)
    (m : Sims W) (bboxes : ℕ → Box W) (picks : List (ℕ × ℕ))
    → NumpyLaws np m
    → match np t m bboxes ≡ some (t', picks)
    → Nodup (faces_of picks) × All (λ p. (p.0 < m.faces) × (p.1 < m.sources)) picks
unfolding match
match-one_source_per_face ieee np t t' m bboxes picks laws e =
    let (w, done, _, same) = match_inversion np t t' m bboxes picks e in
    let v : Inv m w = rw done at (extras-Inv ieee np t m bboxes laws) in
    rw (← same) (v.nodup, v.in_range)

module _ {W : Type 0} ⦃f : Floats W⦄ (np : Numpy W) (t : SourceTracker W) (m : Sims W)
    (laws : NumpyLaws np m) (pos : 0 < m.sources) where
  extra_one_total : (ti : ℕ) (w : Board W) → is_some (extra_one np t m ti w) ≡ true
  unfolding extra_one
  extra_one_total ti w = ground (arith, laws.argmax_total (m.at ti) m.sources)

  extras_total : (left ti : ℕ) (w : Board W) → is_some (extras np t m left ti w) ≡ true
  unfolding extras
  extras_total zero ti w = refl
  extras_total (suc left) ti w = elim (Option-cases (extra_one np t m ti w)) [
    | inl failed ↦ absurd (ground (arith, failed, extra_one_total ti w))
    | inr (w', done) ↦ rw (done, extras) (extras_total left (ti + 1) w')
  ]

-- With at least one source `match` always gives an answer. numpy's argmax answers on a row that is
-- not empty.
pub match_total :
    {W : Type 0} ⦃f : Floats W⦄ (np : Numpy W) (t : SourceTracker W) (m : Sims W)
    (bboxes : ℕ → Box W)
    → NumpyLaws np m
    → 0 < m.sources
    → is_some (match np t m bboxes) ≡ true
unfolding match
match_total np t m bboxes laws pos =
    ground (arith, extras_total np t m laws pos m.faces 0 (primaries np t m bboxes))
