-- ===== src/Matching/Duet.antt =====
-- Matching.SourceTracker, `force`: with as many faces as sources every source is applied.
use mathlib.Core.Bool.{Bool-set}
use mathlib.Core.List.{mem-append_left, mem-append_right, mem-cons_self, map-append}
use face_swap_streamer_versi.Prelude.{
  ℕ, zero, suc, ◌<◌, ◌≡◌, refl, sym, subst, ◌∙◌, ◌⊎◌, inl, inr, true, false, not, ◌||◌, ◌==◌, List,
  [], ◌∷◌, Mem, some, is_some, arith, All, All→Mem, Bool-cases, OnSome, all_below, count_below,
  all_below_get, all_below_intro, all_below_missing, all_below→count, count→all_below,
  count_below-update,
}
use face_swap_streamer_versi.Floats.{Floats, IsIeee}
use face_swap_streamer_versi.Matching.Rule.{
  NumpyLaws, primaries_ind, greedy_ind, carry_through_ind, extras_ind, match_inversion,
}
use face_swap_streamer_versi.Matching.Picks.{sources_of}
use face_swap_streamer_versi.Matching.{
  Box, Sims, Numpy, SourceTracker, Board, empty_board, acceptable, assign, force, greedy, extras,
  primaries, match, settle,
}

none_used : (n : ℕ) → count_below n (λ _. false) ≡ 0
none_used zero = refl
none_used (suc n) = none_used n

module _ {W : Type 0} where
  -- Faces and sources are used up one for one, and a used source has its primary match.
  pub record Paired (m : Sims W) (w : Board W) : Type 0 where
    pub balanced : count_below m.faces w.face_taken ≡ count_below m.sources w.src_used
    pub matched : (si : ℕ) → w.src_used si ≡ true → is_some (w.primary si) ≡ true
    pub listed : (si : ℕ) → w.src_used si ≡ true → Mem si (sources_of w.picks)

  assign-Paired :
      (m : Sims W) (bboxes : ℕ → Box W) (w : Board W) (ti si : ℕ)
      → Paired m w
      → w.face_taken ti ≡ false
      → w.src_used si ≡ false
      → ti < m.faces
      → si < m.sources
      → Paired m (assign bboxes ti si w)
  unfolding assign
  assign-Paired m bboxes w ti si v free unused ht hs = record {
    balanced = omega (
      arith,
      v.balanced,
      count_below-update m.faces ti w.face_taken free ht,
      count_below-update m.sources si w.src_used unused hs,
    );
    matched = λ s h. ground (arith, v.matched s);
    listed = λ s h. rw map-append (elim (Bool-cases (s == si)) [
      | inl same ↦
          let e : si ≡ s = ground arith in
          rw (← e) (mem-append_right (sources_of w.picks) mem-cons_self)
      | inr other ↦ mem-append_left (si ∷ []) (v.listed s (ground arith))
    ]);
  }

  -- All faces or all sources are used, or each pair of the order has one side used.
  abbrev Exhausted : Sims W → List (ℕ × ℕ) → Board W → Type 0
  Exhausted m order w =
      (all_below m.sources w.src_used || all_below m.faces w.face_taken ≡ true)
      ⊎ All (λ p. (w.face_taken p.0 || w.src_used p.1) ≡ true) order

  Exhausted→all_used :
      (m : Sims W) (order : List (ℕ × ℕ)) (w : Board W)
      → m.faces ≡ m.sources
      → ((i j : ℕ) → i < m.faces → j < m.sources → Mem (i, j) order)
      → Paired m w
      → Exhausted m order w
      → all_below m.sources w.src_used ≡ true
  Exhausted→all_used m order w square covers v x =
      elim (Bool-cases (all_below m.sources w.src_used)) [
        | inl done ↦ done
        | inr open_ ↦
            let (j, lt, off) = all_below_missing m.sources w.src_used open_ in
            let faces : all_below m.faces w.face_taken ≡ true = elim x [
              | inl full ↦ ground arith
              | inr pairs ↦ all_below_intro m.faces w.face_taken λ i h.
                  let hit =
                    All→Mem (λ p. (w.face_taken p.0 || w.src_used p.1) ≡ true) (λ p. Bool-set _ _)
                      order pairs (covers i j h lt) in
                  ground (arith, hit, off)
            ] in
            count→all_below m.sources w.src_used
              (sym v.balanced ∙ all_below→count m.faces w.face_taken faces ∙ square)
      ]

  Exhausted-cons :
      (m : Sims W) (ti si : ℕ) (order : List (ℕ × ℕ)) (w : Board W)
      → (w.face_taken ti || w.src_used si) ≡ true
      → Exhausted m order w
      → Exhausted m ((ti, si) ∷ order) w
  Exhausted-cons m ti si order w on (inl full) = inl full
  Exhausted-cons m ti si order w on (inr rest) = inr (on, rest)

module _ {W : Type 0} ⦃f : Floats W⦄ (ieee : IsIeee W) (np : Numpy W) (t : SourceTracker W)
    (m : Sims W) (bboxes : ℕ → Box W) (laws : NumpyLaws np m) (square : m.faces ≡ m.sources) where
  always_acceptable : (ti si : ℕ) → acceptable t m bboxes ti si ≡ true
  unfolding acceptable force
  always_acceptable ti si = ground arith

  -- What is used stays used.
  abbrev InRange : List (ℕ × ℕ) → Type 0
  InRange = All (λ p. (p.0 < m.faces) × (p.1 < m.sources))

  greedy_keeps :
      (order : List (ℕ × ℕ)) (w : Board W) (ti si : ℕ)
      → InRange order
      → (w.face_taken ti || w.src_used si) ≡ true
      → ((greedy t m bboxes order w).face_taken ti || (greedy t m bboxes order w).src_used si)
        ≡ true
  unfolding assign
  greedy_keeps order w ti si h on =
      greedy_ind ieee np t m bboxes laws (λ w'. (w'.face_taken ti || w'.src_used si) ≡ true)
        (λ w' i j p _ _ _ _ _. ground arith) order w h on

  assigned :
      (ti si : ℕ) (w : Board W)
      → ((assign bboxes ti si w).face_taken ti || (assign bboxes ti si w).src_used si) ≡ true
  unfolding assign
  assigned ti si w = ground arith

  -- A step of the greedy loop, with all pairs acceptable.
  greedy_cases :
      (ti si : ℕ) (order : List (ℕ × ℕ)) (w : Board W)
      → let after = greedy t m bboxes ((ti, si) ∷ order) w in
        let w' = assign bboxes ti si w in
        ((w.face_taken ti || w.src_used si) ≡ true) × (after ≡ greedy t m bboxes order w)
        ⊎ ((all_below m.sources w'.src_used || all_below m.faces w'.face_taken) ≡ true)
          × (after ≡ w')
        ⊎ (after ≡ greedy t m bboxes order w')
  unfolding greedy
  greedy_cases ti si order w =
      let w' = assign bboxes ti si w in
      elim (Bool-cases (w.face_taken ti || w.src_used si || not (acceptable t m bboxes ti si))) [
        | inl skip ↦ inl (ground (arith, always_acceptable ti si), rw skip)
        | inr pick ↦
            elim (Bool-cases (all_below m.sources w'.src_used || all_below m.faces w'.face_taken)) [
              | inl full ↦ inr (inl (full, rw (pick, full)))
              | inr more ↦ inr (inr (rw (pick, more)))
            ]
      ]

  greedy-Exhausted :
      (order : List (ℕ × ℕ)) (w : Board W)
      → InRange order
      → Exhausted m order (greedy t m bboxes order w)
  greedy-Exhausted [] w h = inr tt
  greedy-Exhausted ((ti, si) ∷ order) w h =
      let w' = assign bboxes ti si w in
      let rest = greedy-Exhausted order w h.1 in
      let rest' = greedy-Exhausted order w' h.1 in
      elim (greedy_cases ti si order w) [
        | inl (on, e) ↦ subst (Exhausted m ((ti, si) ∷ order)) (sym e) (
            Exhausted-cons m ti si order (greedy t m bboxes order w)
              (greedy_keeps order w ti si h.1 on) rest)
        | inr (inl (full, e)) ↦ subst (Exhausted m ((ti, si) ∷ order)) (sym e) (inl full)
        | inr (inr e) ↦ subst (Exhausted m ((ti, si) ∷ order)) (sym e) (
            Exhausted-cons m ti si order (greedy t m bboxes order w')
              (greedy_keeps order w' ti si h.1 (assigned ti si w)) rest')
      ]

  empty_board-Paired : Paired m empty_board
  unfolding empty_board
  empty_board-Paired = record {
    balanced = none_used m.faces ∙ sym (none_used m.sources);
    matched = λ si h. cc;
    listed = λ si h. absurd (cc);
  }

  greedy_board : Board W
  greedy_board = greedy t m bboxes (np.argsort_desc m) empty_board

  greedy_board-Paired : Paired m greedy_board
  unfolding greedy_board
  greedy_board-Paired =
      greedy_ind ieee np t m bboxes laws (Paired m)
        (λ w ti si v free unused ht hs _. assign-Paired m bboxes w ti si v free unused ht hs)
        (np.argsort_desc m) empty_board laws.in_range empty_board-Paired

  greedy_board-all_used : all_below m.sources greedy_board.src_used ≡ true
  unfolding greedy_board
  greedy_board-all_used =
      Exhausted→all_used m (np.argsort_desc m) greedy_board square laws.covers greedy_board-Paired
        (greedy-Exhausted (np.argsort_desc m) empty_board laws.in_range)

  -- Phase 2 has nothing left to do, and phase 3 only appends.
  primaries_used : (si : ℕ) → si < m.sources → (primaries np t m bboxes).src_used si ≡ true
  unfolding primaries greedy_board assign
  primaries_used si lt =
      carry_through_ind ieee np t m bboxes laws (λ w. w.src_used si ≡ true)
        (λ w ti s p _ _ _ _ _. ground arith) m.sources 0 greedy_board (omega arith)
        (all_below_get m.sources si greedy_board.src_used greedy_board-all_used lt)

  primaries-Paired : Paired m (primaries np t m bboxes)
  primaries-Paired =
      primaries_ind ieee np t m bboxes laws (Paired m)
        (λ w ti si v free unused ht hs _. assign-Paired m bboxes w ti si v free unused ht hs)
        empty_board-Paired

  extras_keep :
      (si : ℕ)
      → si < m.sources
      → OnSome
          (λ w. (is_some (w.primary si) ≡ true) × Mem si (sources_of w.picks))
          (extras np t m m.faces 0 (primaries np t m bboxes))
  extras_keep si lt =
      let used = primaries_used si lt in
      extras_ind np t m laws (λ w. (is_some (w.primary si) ≡ true) × Mem si (sources_of w.picks))
        (λ w ti s p free ht hs good. (p.0, rw map-append (mem-append_left (s ∷ []) p.1))) m.faces 0
        (primaries np t m bboxes) (omega arith)
        (primaries-Paired.matched si used, primaries-Paired.listed si used)

-- When a frame has as many faces as the matrix has sources, every source is in the answer and its
-- miss counter is 0 after the call. The float comparisons are those of IEEE 754; numpy's argsort
-- lists every pair of the matrix, and argmax answers with an index.
pub match-applies_all :
    {W : Type 0} ⦃f : Floats W⦄ (ieee : IsIeee W) (np : Numpy W) (t t' : SourceTracker W)
    (m : Sims W) (bboxes : ℕ → Box W) (picks : List (ℕ × ℕ))
    → NumpyLaws np m
    → m.faces ≡ m.sources
    → match np t m bboxes ≡ some (t', picks)
    → (si : ℕ) → si < m.sources
    → Mem si (sources_of picks) × (t'.misses si ≡ 0)
unfolding settle
match-applies_all ieee np t t' m bboxes picks laws square e si lt =
    let (w, done, after, same) = match_inversion np t t' m bboxes picks e in
    let kept = rw done at (extras_keep ieee np t m bboxes laws square si lt) in
    rw (← same, ← after) (kept.1, ground (arith, kept.0))
