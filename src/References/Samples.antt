-- ===== src/References/Samples.antt =====
-- Two faces of two people, and a source of each gender.
use face_swap_streamer_versi.Prelude.{
  ℕ, zero, suc, ◌≤◌, ◌<◌, ◌≡◌, refl, Bool, true, not, ◌==◌, if◌then◌else◌, List, [], ◌∷◌, some, All,
  Ends, inl, inr, Bool-cases, arith,
}
use face_swap_streamer_versi.Floats.Fixed.{pos}
use face_swap_streamer_versi.Floats.Nan.{Nanable, nan_floats, Nanable-IsIeee}
use face_swap_streamer_versi.References.{
  Candidates, votes, cluster_embeddings, Reference, bound, extract_references,
}
use face_swap_streamer_versi.References.Rounds.{Sound, claims}
use face_swap_streamer_versi.References.Rounds.Sorted.{Falling, cluster_embeddings-Disjoint}
use face_swap_streamer_versi.References.Rounds.Partition.{Fair, cluster_embeddings-Partition}
use face_swap_streamer_versi.References.Binding.{Binds, extract_references-Binds}

abbrev two_faces : Candidates Nanable
two_faces = record {
  count = 2;
  sim = λ i j. if i == j then some (pos 1000) else some (pos 100);
  scores = λ i. if i == 0 then some (pos 50000) else some (pos 80000);
  gender_labels = λ i. if i == 0 then "M" else "F";
  frame = λ i. i;
  argmax = λ v. if nan_floats.le (v 1) (v 0) then 0 else 1;
}

abbrev thresh : Nanable
thresh = nan_floats.dec 30 2

two_faces_range : (v : ℕ → Nanable) → 0 < 2 → (if nan_floats.le (v 1) (v 0) then 0 else 1) < 2
two_faces_range v h = ground arith

two_faces_greatest :
    (v : ℕ → Nanable) (i : ℕ)
    → ((j : ℕ) → j < 2 → nan_floats.le (v j) (v j) ≡ true)
    → i < 2
    → nan_floats.le (v i) (v (two_faces.argmax v)) ≡ true
two_faces_greatest v zero numbers lt =
    ground
      (arith, numbers 0 (omega arith), numbers 1 (omega arith), Nanable-IsIeee.le_total (v 0) (v 1))
two_faces_greatest v (suc zero) numbers lt =
    ground
      (arith, numbers 0 (omega arith), numbers 1 (omega arith), Nanable-IsIeee.le_total (v 0) (v 1))
two_faces_greatest v (suc (suc i)) numbers lt = absurd (omega arith)

two_faces_numbers :
    (unused : ℕ → Bool) (i : ℕ)
    → i < 2
    → nan_floats.le (votes two_faces thresh unused i) (votes two_faces thresh unused i) ≡ true
unfolding votes
two_faces_numbers unused zero lt = elim (Bool-cases (unused 0)) [
  | inl e ↦ rw e refl
  | inr e ↦ rw e refl
]
two_faces_numbers unused (suc zero) lt = elim (Bool-cases (unused 1)) [
  | inl e ↦ rw e refl
  | inr e ↦ rw e refl
]
two_faces_numbers unused (suc (suc i)) lt = absurd (omega arith)

two_faces_counts :
    (unused : ℕ → Bool) (i : ℕ)
    → i < 2
    → nan_floats.le (votes two_faces thresh unused i) (some (pos 0)) ≡ not (unused i)
unfolding votes
two_faces_counts unused zero lt = elim (Bool-cases (unused 0)) [
  | inl e ↦ rw e refl
  | inr e ↦ rw e refl
]
two_faces_counts unused (suc zero) lt = elim (Bool-cases (unused 1)) [
  | inl e ↦ rw e refl
  | inr e ↦ rw e refl
]
two_faces_counts unused (suc (suc i)) lt = absurd (omega arith)

two_faces-Fair : Fair two_faces thresh
two_faces-Fair = record {
  in_range = two_faces_range;
  greatest = two_faces_greatest;
  numbers = two_faces_numbers;
  counts = two_faces_counts;
  itself = λ i lt. ground arith;
}

cluster_embeddings-Disjoint_example :
    Ends
      (λ gs.
        All (Sound two_faces thresh) gs × ((i : ℕ) → claims two_faces thresh i gs ≤ 1) × Falling gs)
      (cluster_embeddings two_faces thresh)
cluster_embeddings-Disjoint_example = cluster_embeddings-Disjoint two_faces thresh two_faces_range

cluster_embeddings-Partition_example :
    Ends (λ gs. claims two_faces thresh 1 gs ≡ 1) (cluster_embeddings two_faces thresh)
cluster_embeddings-Partition_example =
    cluster_embeddings-Partition Nanable-IsIeee two_faces thresh two_faces-Fair 1 (omega arith)

extract_references-Binds_example :
    (rs : List Reference) × (extract_references two_faces ("F" ∷ "M" ∷ []) ≡ some (bound rs))
    × Binds two_faces ("F" ∷ "M" ∷ []) rs
extract_references-Binds_example =
    extract_references-Binds two_faces Nanable-IsIeee ("F" ∷ "M" ∷ []) (omega arith) two_faces-Fair
