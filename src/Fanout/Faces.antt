-- ===== src/Fanout/Faces.antt =====
-- server/swap_worker.py, _match_faces_to_sources: which source a worker swaps into which face.
-- numpy's argsort and argmax are part of the similarities.
pub mod Matches
use face_swap_streamer_versi.Prelude.{
  get_elem?, ◌⊎◌, inl, inr, ℕ, zero, suc, Bool, true, false, not, ◌&&◌, ◌||◌, ◌==◌, if◌then◌else◌,
  List, [], ◌∷◌, ◌++◌, Option, none, some, String, update, all_below,
}
use face_swap_streamer_versi.Floats.{Floats}
use face_swap_streamer_versi.Fanout.{Swapped, swapped, raised}

-- `out`, `face_taken` and `src_used`.
pub record Claims : Type 0 where
  pub out : List (ℕ × ℕ)
  pub face_taken : ℕ → Bool
  pub src_used : ℕ → Bool

abbrev pub no_claims : Claims
no_claims = record { out = []; face_taken = λ _. false; src_used = λ _. false }

-- The similarities of `targets` faces to `n_sources` sources.
pub record Similar (W : Type 0) : Type 0 where
  pub targets : ℕ
  pub n_sources : ℕ
  pub sim : ℕ → ℕ → W
  -- The pairs by falling similarity, and the best source of a face.
  pub order : List (ℕ × ℕ)
  pub argmax : ℕ → ℕ

module _ {W : Type 0} ⦃f : Floats W⦄ (m : Similar W) (thresh : W) where
  abbrev pub forced : Bool
  forced = m.targets == m.n_sources

  abbrev pub claim : ℕ → ℕ → Claims → Claims
  claim ti si c = record {
    out = c.out ++ (ti, si) ∷ [];
    face_taken = update c.face_taken ti true;
    src_used = update c.src_used si true;
  }

  -- The loop over the pairs, with its `continue` and its two breaks.
  unfoldable pub claim_pairs : List (ℕ × ℕ) → Claims → Claims
  claim_pairs [] c = c
  claim_pairs ((ti, si) ∷ rest) c =
      let skip = claim_pairs rest c in
      let c' = claim ti si c in
      let more = claim_pairs rest c' in
      if c.face_taken ti || c.src_used si
      then skip
      else if not forced && f.lt (m.sim ti si) thresh
      then c
      else if all_below m.n_sources c'.src_used || all_below m.targets c'.face_taken
      then c'
      else more

  -- The faces from `ti` on that are left over, each with its best source.
  unfoldable pub leftovers : ℕ → ℕ → Claims → List (ℕ × ℕ)
  leftovers ti zero c = []
  leftovers ti (suc n) c =
      let rest = leftovers (suc ti) n c in
      if not (c.face_taken ti) && f.le thresh (m.sim ti (m.argmax ti))
      then (ti, m.argmax ti) ∷ rest
      else rest

  unfoldable pub match_faces_to_sources : List (ℕ × ℕ)
  unfolding claim_pairs leftovers
  match_faces_to_sources = let c = claim_pairs m.order no_claims in c.out ++ leftovers 0 m.targets c

-- The models of a worker, each of which may raise: the faces of a picture, their similarities to
-- the sources, and the pasting of a source onto a face.
pub record Models (W I F : Type 0) : Type 0 where
  pub detect : I → String ⊎ List F
  pub similar : List F → Similar W
  pub swap : I → F → ℕ → String ⊎ I

module _ {W I F : Type 0} ⦃f : Floats W⦄ (models : Models W I F) (thresh : W) where
  -- The loop over the matches; an exception leaves the frame as it is then.
  pub swap_faces : List F → List (ℕ × ℕ) → I → ℕ → Swapped I
  swap_faces faces [] frame n = swapped frame n
  swap_faces faces ((ti, si) ∷ rest) frame n = elim (get_elem? faces ti) [
    | none ↦ raised frame "IndexError: list index out of range"
    | some face ↦ elim (models.swap frame face si) [
      | inl e ↦ raised frame e
      | inr work ↦ swap_faces faces rest work (suc n)
    ]
  ]

  -- The body of the `try` block of `worker_main`'s loop: the `process` of the other modules.
  pub swap_frame : I → Swapped I
  unfolding swap_faces
  swap_frame frame = elim (models.detect frame) [
    | inl e ↦ raised frame e
    | inr faces ↦ elim faces [
      | [] ↦ swapped frame 0
      | face ∷ more ↦
          swap_faces (face ∷ more) (match_faces_to_sources (models.similar (face ∷ more)) thresh)
            frame 0
    ]
  ]
