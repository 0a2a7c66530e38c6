-- ===== src/Matching/Samples.antt =====
-- Matching: two small frames, and the theorems at them.
use mathlib.Core.List.{mem-cons_self, mem-cons_of_mem}
use face_swap_streamer_versi.Prelude.{
  ◌≢◌, ℕ, zero, suc, ◌+◌, ◌<◌, ◌≡◌, refl, ◌⊎◌, true, if◌then◌else◌, List, [], ◌∷◌, Mem, Nodup,
  Option, none, some, is_some, arith, All,
}
use face_swap_streamer_versi.Floats.Fixed.{ℤ, pos, fixed_floats, ℤ-IsIeee}
use face_swap_streamer_versi.Matching.Rule.{NumpyLaws}
use face_swap_streamer_versi.Matching.Picks.{faces_of, sources_of, match-one_source_per_face}
use face_swap_streamer_versi.Matching.Duet.{match-applies_all}
use face_swap_streamer_versi.Matching.Gates.{Supported, match-Supported, match-settles}
use face_swap_streamer_versi.Matching.{
  Box, Sims, Numpy, SourceTracker, new, bbox_iou, warm, overlaps, empty_board, force, acceptable,
  assign, greedy, nearest, carry_one, carry_through, extra_one, extras, primaries, settle, match,
}

-- An argmax, and an argsort that knows the order of the sample's pairs.
best_of : (ℕ → ℤ) → ℕ → ℕ → ℕ → ℕ
best_of row zero i best = best
best_of row (suc left) i best =
    best_of row left (i + 1) (if fixed_floats.lt (row best) (row i) then i else best)

best_of_lt : (row : ℕ → ℤ) (left i best : ℕ) → best < i → best_of row left i best < i + left
unfolding best_of
best_of_lt row zero i best h = omega arith
best_of_lt row (suc left) i best h =
    ground (arith, best_of_lt row left (i + 1) best, best_of_lt row left (i + 1) i)

argmax : (ℕ → ℤ) → ℕ → Option ℕ
unfolding best_of
argmax row zero = none
argmax row (suc n) = some (best_of row n 1 0)

abbrev numpy_of : List (ℕ × ℕ) → Numpy ℤ
numpy_of order = record { argsort_desc = λ _. order; argmax = argmax }

argmax_lt : (row : ℕ → ℤ) (n i : ℕ) → argmax row n ≡ some i → i < n
unfolding argmax
argmax_lt row zero i e = cc
argmax_lt row (suc n) i e = ground (arith, best_of_lt row n 1 0)

argmax_total : (row : ℕ → ℤ) (n : ℕ) → 0 < n → is_some (argmax row n) ≡ true
unfolding argmax
argmax_total row zero h = absurd (omega arith)
argmax_total row (suc n) h = refl

abbrev tracker : SourceTracker ℤ
unfolding new
tracker = new 2 (pos 150) (pos 500) 5 (pos 300)

abbrev boxes : ℕ → Box ℤ
boxes i = record { x1 = pos 0; y1 = pos 0; x2 = pos 10000; y2 = pos 10000 }

-- Two faces; each looks most like one of the two sources, the second one only a little.
abbrev duet_at : ℕ → ℕ → ℤ
duet_at zero zero = pos 900
duet_at zero _ = pos 50
duet_at _ zero = pos 20
duet_at _ _ = pos 100

abbrev duet : Sims ℤ
duet = record { faces = 2; sources = 2; at = duet_at }

abbrev duet_order : List (ℕ × ℕ)
duet_order = (0, 0) ∷ (1, 1) ∷ (0, 1) ∷ (1, 0) ∷ []

duet_covers : (i j : ℕ) → i < 2 → j < 2 → Mem (i, j) duet_order
duet_covers zero zero h k = mem-cons_self
duet_covers zero (suc zero) h k = mem-cons_of_mem _ (mem-cons_of_mem _ mem-cons_self)
duet_covers zero (suc (suc j)) h k = absurd (omega arith)
duet_covers (suc zero) zero h k =
    mem-cons_of_mem _ (mem-cons_of_mem _ (mem-cons_of_mem _ mem-cons_self))
duet_covers (suc zero) (suc zero) h k = mem-cons_of_mem _ mem-cons_self
duet_covers (suc zero) (suc (suc j)) h k = absurd (omega arith)
duet_covers (suc (suc i)) j h k = absurd (omega arith)

duet-NumpyLaws : NumpyLaws (numpy_of duet_order) duet
duet-NumpyLaws = record {
  in_range = omega arith;
  covers = duet_covers;
  argmax_lt = argmax_lt;
  argmax_total = argmax_total;
}

program : Unit {0}
unfolding match primaries extras extra_one carry_through carry_one nearest greedy assign acceptable
    force overlaps warm bbox_iou empty_board settle argmax tracker
program = tt

abbrev after_duet : SourceTracker ℤ
after_duet = settle tracker (primaries (numpy_of duet_order) tracker duet boxes)

abbrev duet_picks : List (ℕ × ℕ)
duet_picks = (0, 0) ∷ (1, 1) ∷ []

match-duet : match (numpy_of duet_order) tracker duet boxes ≡ some (after_duet, duet_picks)
unfolding program
match-duet = refl

match-one_source_per_face_example :
    Nodup (faces_of duet_picks) × All (λ p. (p.0 < 2) × (p.1 < 2)) duet_picks
match-one_source_per_face_example =
    match-one_source_per_face ℤ-IsIeee (numpy_of duet_order) tracker after_duet duet boxes
      duet_picks duet-NumpyLaws match-duet

match-applies_all_example : Mem 1 (sources_of duet_picks) × (after_duet.misses 1 ≡ 0)
match-applies_all_example =
    match-applies_all ℤ-IsIeee (numpy_of duet_order) tracker after_duet duet boxes duet_picks
      duet-NumpyLaws refl match-duet 1 (omega arith)

-- The next frame shows one face, and its similarity to both sources is lost.
abbrev lost : Sims ℤ
lost = record { faces = 1; sources = 2; at = λ _ _. pos 10 }

abbrev lost_order : List (ℕ × ℕ)
lost_order = (0, 0) ∷ (0, 1) ∷ []

lost_covers : (i j : ℕ) → i < 1 → j < 2 → Mem (i, j) lost_order
lost_covers zero zero h k = mem-cons_self
lost_covers zero (suc zero) h k = mem-cons_of_mem _ mem-cons_self
lost_covers zero (suc (suc j)) h k = absurd (omega arith)
lost_covers (suc i) j h k = absurd (omega arith)

lost-NumpyLaws : NumpyLaws (numpy_of lost_order) lost
lost-NumpyLaws = record {
  in_range = omega arith;
  covers = lost_covers;
  argmax_lt = argmax_lt;
  argmax_total = argmax_total;
}

abbrev after_lost : SourceTracker ℤ
after_lost = settle after_duet (primaries (numpy_of lost_order) after_duet lost boxes)

-- The first source stays on the face by its position.
abbrev lost_picks : List (ℕ × ℕ)
lost_picks = (0, 0) ∷ []

match-lost : match (numpy_of lost_order) after_duet lost boxes ≡ some (after_lost, lost_picks)
unfolding program
match-lost = refl

match-Supported_example : All (Supported after_duet lost boxes) lost_picks
match-Supported_example =
    match-Supported ℤ-IsIeee (numpy_of lost_order) after_duet after_lost lost boxes lost_picks
      lost-NumpyLaws (omega arith) match-lost

match-settles_example :
    let first = (primaries (numpy_of lost_order) after_duet lost boxes).picks in
    ((ti : ℕ) × Mem (ti, 1) first
      × Mem (ti, 1) lost_picks
      × (after_lost.last_bbox 1 ≡ some (boxes ti))
      × (after_lost.misses 1 ≡ 0))
    ⊎ All (λ p. p.1 ≢ 1) first
      × (after_lost.last_bbox 1 ≡ after_duet.last_bbox 1)
      × (after_lost.misses 1 ≡ after_duet.misses 1 + 1)
match-settles_example =
    match-settles ℤ-IsIeee (numpy_of lost_order) after_duet after_lost lost boxes lost_picks
      lost-NumpyLaws match-lost 1
