-- ===== src/Clusters/Best.antt =====
-- assign_sources_to_clusters: the search finds a best candidate.
use face_swap_streamer_versi.Prelude.{
  ℕ, zero, suc, ◌+◌, ◌≤◌, ◌<◌, ◌-◌, ◌==◌, ◌++◌, ◌∙◌, sym, ap, take, replicate, take-all,
  length-append, length-replicate, ◌≡◌, ◌⊎◌, inl, inr, subst, refl, false, if◌then◌else◌, List, [],
  ◌∷◌, String, length, arith, All, All-mono, All-append, map, Bool-cases, min,
}
use face_swap_streamer_versi.Floats.{Floats, IsIeee, lt-rises, lt_irrefl, nought, one}
use face_swap_streamer_versi.Clusters.{
  Cluster, range, picks, concat_map, permutations, score, search_best, pool_size, best_of,
  assign_sources_to_clusters,
}

-- Padding to `k` entries cuts nothing off what is not longer.
padded :
    (k : ℕ) (out : List ℕ)
    → length out ≤ k
    → take k (out ++ replicate (k - length out) 0) ≡ out ++ replicate (k - length out) 0
padded k out le = take-all k (out ++ replicate (k - length out) 0) (
    omega (
      arith,
      length-append out (replicate (k - length out) 0),
      length-replicate {A = ℕ} (k - length out) 0,
    ))

padded_length :
    (k : ℕ) (out : List ℕ) → length out ≤ k → length (out ++ replicate (k - length out) 0) ≡ k
padded_length k out le = omega (
  arith,
  length-append out (replicate (k - length out) 0),
  length-replicate {A = ℕ} (k - length out) 0,
)

length-range : (i n : ℕ) → length (range i n) ≡ n
unfolding range
length-range i zero = refl
length-range i (suc n) = omega (arith, length-range (i + 1) n)

abbrev Long : ℕ → List ℕ → Type 0
Long r perm = length perm ≤ r

map-Long :
    (x r : ℕ) (perms : List (List ℕ))
    → All (Long r) perms
    → All (Long (suc r)) (map (λ p. x ∷ p) perms)
map-Long x r [] h = tt
map-Long x r (perm ∷ perms) h = (omega (arith, h.0), map-Long x r perms h.1)

-- What heads the permutations of the others, for each item with its others.
heads-Long :
    (r : ℕ) (perms : List ℕ → List (List ℕ))
    → ((others : List ℕ) → All (Long r) (perms others))
    → (ps : List (ℕ × List ℕ))
    → All (Long (suc r)) (concat_map (λ p. map (λ perm. p.0 ∷ perm) (perms p.1)) ps)
unfolding concat_map
heads-Long r perms h [] = tt
heads-Long r perms h ((x, others) ∷ ps) =
    All-append (Long (suc r)) (map (λ perm. x ∷ perm) (perms others)) _
      (map-Long x r (perms others) (h others)) (heads-Long r perms h ps)

-- A permutation of `r` of the pool has at most `r` entries.
permutations-Long : (r : ℕ) (pool : List ℕ) → All (Long r) (permutations r pool)
unfolding permutations
permutations-Long zero pool = (omega arith, tt)
permutations-Long (suc r) pool = heads-Long r (permutations r) (permutations-Long r) (picks [] pool)

module _ {W : Type 0} ⦃f : Floats W⦄ (ieee : IsIeee W) (clusters : List (Cluster W))
    (genders : List String) where
  -- A score is not beyond a bound.
  abbrev pub Within : W → List ℕ → Type 0
  Within bound perm = f.lt bound (score clusters genders perm) ≡ false

  -- One round of the search, by the pair that it goes on with.
  moves :
      (perm : List ℕ) (perms : List (List ℕ)) (bound : W) (best : List ℕ) (next : W × List ℕ)
      → (if f.lt bound (score clusters genders perm)
          then (score clusters genders perm, perm)
          else (bound, best))
        ≡ next
      → search_best clusters genders (perm ∷ perms) (bound, best)
        ≡ search_best clusters genders perms next
  unfolding search_best
  moves perm perms bound best next e = ap (search_best clusters genders perms) e

  search_best-Within :
      (perms : List (List ℕ)) (bound : W) (best : List ℕ) (seen : List (List ℕ))
      → All (Within bound) seen
      → let found = search_best clusters genders perms (bound, best) in
        All (Within found.0) seen × All (Within found.0) perms
  unfolding search_best
  search_best-Within [] bound best seen h = (h, tt)
  search_best-Within (perm ∷ perms) bound best seen h =
      let s = score clusters genders perm in
      let told : W × List ℕ → Type 0 =
        λ found. All (Within found.0) seen × All (Within found.0) (perm ∷ perms) in
      elim (Bool-cases (f.lt bound s)) [
        | inl up ↦
            let itself : f.lt s s ≡ false = lt_irrefl ieee s in
            let raised =
              All-mono (Within bound) (Within s) seen
                (λ p old. lt-rises ieee bound s (score clusters genders p) up old) h in
            let rest = search_best-Within perms s perm (perm ∷ seen) (itself, raised) in
            subst told (sym (moves perm perms bound best (s, perm) (rw up refl)))
              ((rest.0).1, ((rest.0).0, rest.1))
        | inr same ↦
            let rest = search_best-Within perms bound best (perm ∷ seen) (same, h) in
            subst told (sym (moves perm perms bound best (bound, best) (rw same refl)))
              ((rest.0).1, ((rest.0).0, rest.1))
      ]

  -- The best score is that of the best candidate, once one has been taken.
  search_best_honest :
      (perms : List (List ℕ)) (bound : W) (best : List ℕ)
      → let found = search_best clusters genders perms (bound, best) in
        (found.0 ≡ score clusters genders found.1) ⊎ ((found.0 ≡ bound) × (found.1 ≡ best))
  unfolding search_best
  search_best_honest [] bound best = inr (refl, refl)
  search_best_honest (perm ∷ perms) bound best =
      let s = score clusters genders perm in
      elim (Bool-cases (f.lt bound s)) [
        | inl up ↦
            rw (up, search_best)
              (elim (search_best_honest perms s perm) [
                | inl e ↦ inl e
                | inr e ↦ inl (e.0 ∙ ap (score clusters genders) (sym e.1))
              ])
        | inr same ↦ rw (same, search_best) (search_best_honest perms bound best)
      ]

  search_best-Long :
      (r : ℕ) (perms : List (List ℕ)) (bound : W) (best : List ℕ)
      → All (Long r) perms
      → Long r best
      → Long r (search_best clusters genders perms (bound, best)).1
  unfolding search_best
  search_best-Long r [] bound best h b = b
  search_best-Long r (perm ∷ perms) bound best h b =
      elim (Bool-cases (f.lt bound (score clusters genders perm))) [
        | inl up ↦ rw (up, search_best) (search_best-Long r perms _ perm h.1 h.0)
        | inr same ↦ rw (same, search_best) (search_best-Long r perms bound best h.1 b)
      ]

  -- With no cluster every source gets cluster 0. Otherwise the answer is the candidate that the
  -- search has found, filled up with cluster 0 for the sources beyond it, one cluster for each
  -- source. No permutation of the candidate pool has a score above the best score, which is that
  -- of this candidate, or still the initial -1, and then the candidate is the first one. The
  -- float comparisons are those of IEEE 754.
  pub assign_sources_to_clusters-best :
      (pool_extra : ℕ)
      → let k = length genders in
        let pool_n = pool_size clusters k pool_extra in
        let r = min k pool_n in
        let found = best_of clusters genders pool_extra in
        let answer = assign_sources_to_clusters clusters genders pool_extra in
        (length answer ≡ k)
        × ((length clusters ≡ 0) × (answer ≡ replicate k 0)
            ⊎ (0 < length clusters) × (answer ≡ found.1 ++ replicate (k - length found.1) 0))
        × All (Within found.0) (permutations r (range 0 pool_n))
        × ((found.0 ≡ score clusters genders found.1)
            ⊎ ((found.0 ≡ f.sub nought one) × (found.1 ≡ range 0 r)))
  unfolding assign_sources_to_clusters best_of
  assign_sources_to_clusters-best pool_extra =
      let k = length genders in
      let pool_n = pool_size clusters k pool_extra in
      let r = min k pool_n in
      let perms = permutations r (range 0 pool_n) in
      let out = (best_of clusters genders pool_extra).1 in
      let long : length out ≤ r =
        search_best-Long r perms (f.sub nought one) (range 0 r)
          (permutations-Long r (range 0 pool_n)) (omega (arith, length-range 0 r)) in
      let short : length out ≤ k = omega (arith, long) in
      let (sized, shape) = filled (length clusters) k out short in
      (
        sized,
        shape,
        (search_best-Within perms (f.sub nought one) (range 0 r) [] tt).1,
        search_best_honest perms (f.sub nought one) (range 0 r),
      )
    where
      filled :
          (n k : ℕ) (out : List ℕ)
          → length out ≤ k
          → let answer =
              if n == 0 then replicate k 0 else take k (out ++ replicate (k - length out) 0) in
            (length answer ≡ k)
            × ((n ≡ 0) × (answer ≡ replicate k 0)
                ⊎ (0 < n) × (answer ≡ out ++ replicate (k - length out) 0))
      filled n k out le = elim (Bool-cases (n == 0)) [
        | inl e ↦ rw e (length-replicate {A = ℕ} k 0, inl (ground arith, refl))
        | inr e ↦ rw e (
          ap length (padded k out le) ∙ padded_length k out le,
          inr (ground arith, padded k out le),
        )
      ]
