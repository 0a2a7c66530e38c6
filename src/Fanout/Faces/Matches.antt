-- ===== src/Fanout/Faces/Matches.antt =====
-- server/swap_worker.py, _match_faces_to_sources: no face is claimed twice, and below the threshold
-- only where there are as many faces as sources.
use face_swap_streamer_versi.Prelude.{
  ℕ, zero, suc, ◌≤◌, ◌<◌, ◌≡◌, refl, sym, subst, if_holds, Bool, true, false, not, ◌&&◌, ◌||◌, List,
  [], ◌∷◌, update, all_below, sum_of, sum_of-snoc, sum_of-append, hit, hit_other, hit_cases, All,
  All-append, Bool-cases, inl, inr, arith,
}
use face_swap_streamer_versi.Floats.{Floats, IsIeee}
use face_swap_streamer_versi.Fanout.Faces.{
  Claims, no_claims, Similar, forced, claim, claim_pairs, leftovers, match_faces_to_sources,
}

-- How often a face is in a list of pairs.
abbrev pub times : ℕ → List (ℕ × ℕ) → ℕ
times i = sum_of (λ p. hit i p.0)

-- A face is claimed at most once, and not at all while it is free.
record Single (c : Claims) : Type 0 where
  at_most : (i : ℕ) → times i c.out ≤ 1
  free_of : (i : ℕ) → c.face_taken i ≡ false → times i c.out ≡ 0

module _ {W : Type 0} ⦃f : Floats W⦄ (m : Similar W) (thresh : W) where
  claim-Single :
      (ti si : ℕ) (c : Claims)
      → c.face_taken ti ≡ false
      → Single c
      → Single (claim m thresh ti si c)
  claim-Single ti si c free h = record {
    at_most = λ i. elim (hit_cases i ti) [
      | inl (e, one) ↦
          let none_yet = h.free_of i (subst (λ k. c.face_taken k ≡ false) (sym e) free) in
          omega (arith, sum_of-snoc (λ p. hit i p.0) c.out (ti, si), none_yet, one)
      | inr (_, none_here) ↦
          omega (arith, sum_of-snoc (λ p. hit i p.0) c.out (ti, si), h.at_most i, none_here)
    ];
    free_of = λ i open_i. elim (hit_cases i ti) [
      | inl (e, one) ↦ absurd (ground (arith, open_i, e))
      | inr (apart, none_here) ↦
          let old : (c.face_taken i ≡ false) = ground (arith, open_i, apart) in
          omega (arith, sum_of-snoc (λ p. hit i p.0) c.out (ti, si), h.free_of i old, none_here)
    ];
  }

  -- Where there are not as many faces as sources, a pair is not below the threshold.
  abbrev pub Clear : ℕ × ℕ → Type 0
  Clear p = forced m thresh ≡ false → f.lt (m.sim p.0 p.1) thresh ≡ false

  -- What the loop over the pairs keeps.
  record Fair (c : Claims) : Type 0 where
    single : Single c
    clear : All Clear c.out

  claim_pairs-Fair :
      (pairs : List (ℕ × ℕ)) (c : Claims) → Fair c → Fair (claim_pairs m thresh pairs c)
  unfolding claim_pairs
  claim_pairs-Fair [] c h = h
  claim_pairs-Fair ((ti, si) ∷ rest) c h = elim (Bool-cases (c.face_taken ti || c.src_used si)) [
    | inl used ↦ rw used (claim_pairs-Fair rest c h)
    | inr free ↦ elim (Bool-cases (not (forced m thresh) && f.lt (m.sim ti si) thresh)) [
      | inl low ↦ rw (free, low) h
      | inr high ↦
          let fair : Fair (claim m thresh ti si c) = record {
            single = claim-Single ti si c (ground (arith, free)) h.single;
            clear =
                All-append Clear c.out ((ti, si) ∷ []) h.clear ((λ e. ground (arith, high, e)), tt);
          } in
          rw (free, high)
            (if_holds Fair
              (all_below m.n_sources (update c.src_used si true)
                || all_below m.targets (update c.face_taken ti true))
              fair (claim_pairs-Fair rest (claim m thresh ti si c) fair))
    ]
  ]

  abbrev taken_on : ℕ → Claims → Bool
  taken_on ti c = not (c.face_taken ti) && f.le thresh (m.sim ti (m.argmax ti))

  leftovers-below : (i ti n : ℕ) (c : Claims) → i < ti → times i (leftovers m thresh ti n c) ≡ 0
  unfolding leftovers
  leftovers-below i ti zero c lt = refl
  leftovers-below i ti (suc n) c lt =
      let later = leftovers-below i (suc ti) n c (omega arith) in
      if_holds (λ xs. times i xs ≡ 0) (taken_on ti c)
        (omega (arith, later, hit_other i ti (λ e. omega arith))) later

  leftovers-taken :
      (i ti n : ℕ) (c : Claims) → c.face_taken i ≡ true → times i (leftovers m thresh ti n c) ≡ 0
  unfolding leftovers
  leftovers-taken i ti zero c on = refl
  leftovers-taken i ti (suc n) c on =
      let later = leftovers-taken i (suc ti) n c on in
      elim (Bool-cases (taken_on ti c)) [
        | inr no_claim ↦ rw no_claim later
        | inl claimed ↦ elim (hit_cases i ti) [
          | inl (e, one) ↦ absurd (ground (arith, claimed, subst (λ k. c.face_taken k ≡ true) e on))
          | inr (_, none_here) ↦ rw claimed (omega (arith, later, none_here))
        ]
      ]

  leftovers-once : (i ti n : ℕ) (c : Claims) → times i (leftovers m thresh ti n c) ≤ 1
  unfolding leftovers
  leftovers-once i ti zero c = omega arith
  leftovers-once i ti (suc n) c =
      if_holds (λ xs. times i xs ≤ 1) (taken_on ti c)
        (elim (hit_cases i ti) [
          | inl (e, one) ↦ omega (arith, one, leftovers-below i (suc ti) n c (omega arith))
          | inr (_, none_here) ↦ omega (arith, none_here, leftovers-once i (suc ti) n c)
        ])
        (leftovers-once i (suc ti) n c)

  not_below : IsIeee W → (a b : W) → f.le b a ≡ true → f.lt a b ≡ false
  not_below ieee a b h = ground (arith, ieee.lt-eq a b, h)

  leftovers-Clear : IsIeee W → (ti n : ℕ) (c : Claims) → All Clear (leftovers m thresh ti n c)
  unfolding leftovers
  leftovers-Clear ieee ti zero c = tt
  leftovers-Clear ieee ti (suc n) c =
      let later = leftovers-Clear ieee (suc ti) n c in
      elim (Bool-cases (taken_on ti c)) [
        | inr no_claim ↦ rw no_claim later
        | inl claimed ↦
            rw claimed (
              (λ _. not_below ieee (m.sim ti (m.argmax ti)) thresh (ground (arith, claimed))),
              later,
            )
      ]

  -- On IEEE floats `_match_faces_to_sources` never gives a face two sources, and unless there are
  -- exactly as many faces as sources it matches no pair whose similarity is below the threshold.
  pub match_faces_to_sources-Fair :
      IsIeee W
      → ((i : ℕ) → times i (match_faces_to_sources m thresh) ≤ 1)
        × All Clear (match_faces_to_sources m thresh)
  unfolding match_faces_to_sources
  match_faces_to_sources-Fair ieee =
      let start : Fair no_claims = record {
        single = record { at_most = λ i. omega arith; free_of = λ i _. refl };
        clear = tt;
      } in
      let c = claim_pairs m thresh m.order no_claims in
      let h = claim_pairs-Fair m.order no_claims start in
      (
        λ i.
            let joined = sum_of-append (λ p. hit i p.0) c.out (leftovers m thresh 0 m.targets c) in
            elim (Bool-cases (c.face_taken i)) [
              | inl on ↦
                  omega (arith, joined, h.single.at_most i, leftovers-taken i 0 m.targets c on)
              | inr open_i ↦
                  omega (arith, joined, h.single.free_of i open_i, leftovers-once i 0 m.targets c)
            ],
        All-append Clear c.out _ h.clear (leftovers-Clear ieee 0 m.targets c),
      )
