-- ===== src/Clusters.antt =====
-- src/face_swap/matching.py, assign_sources_to_clusters: the search over the permutations of the
-- candidate pool.
pub mod Best
pub mod Samples
use face_swap_streamer_versi.Prelude.{
  ℕ, zero, suc, ◌+◌, ◌-◌, ◌*◌, min, max, Bool, true, false, ◌==◌, if◌then◌else◌, List, [], ◌∷◌,
  ◌++◌, map, Option, none, some, String, Eq, string_eq, length, take, replicate, get_elem?,
}
use face_swap_streamer_versi.Floats.{Floats, nought, one}

pub record Cluster (W : Type 0) : Type 0 where
  pub size : W
  pub m_frac : W
  pub f_frac : W

-- range(i, i + n)
pub range : ℕ → ℕ → List ℕ
range i zero = []
range i (suc n) = i ∷ range (i + 1) n

-- Each item with the others.
pub picks : List ℕ → List ℕ → List (ℕ × List ℕ)
picks seen [] = []
picks seen (x ∷ xs) = (x, seen ++ xs) ∷ picks (seen ++ x ∷ []) xs

pub concat_map : (ℕ × List ℕ → List (List ℕ)) → List (ℕ × List ℕ) → List (List ℕ)
concat_map g [] = []
concat_map g (p ∷ ps) = g p ++ concat_map g ps

-- itertools.permutations(pool, r): in lexicographic order of the positions.
pub permutations : ℕ → List ℕ → List (List ℕ)
unfolding concat_map picks
permutations zero pool = [] ∷ []
permutations (suc r) pool =
    concat_map (λ p. map (λ perm. p.0 ∷ perm) (permutations r p.1)) (picks [] pool)

module _ {W : Type 0} ⦃f : Floats W⦄ (clusters : List (Cluster W)) where
  -- fit, for a cluster index of the pool.
  pub fit : String → ℕ → W
  fit gender ci = elim (get_elem? clusters ci) [
    | none ↦ nought
    | some c ↦
        let frac = if string_eq.beq gender "M" then c.m_frac else c.f_frac in
        f.mul (f.mul frac frac) c.size
  ]

  -- The sum over enumerate(perm), from the left.
  pub score_from : W → List String → List ℕ → W
  unfolding fit
  score_from acc [] perm = acc
  score_from acc (g ∷ gs) [] = acc
  score_from acc (g ∷ gs) (ci ∷ perm) = score_from (f.add acc (fit g ci)) gs perm

  pub score : List String → List ℕ → W
  unfolding score_from
  score genders perm = score_from nought genders perm

  -- The loop over the permutations, from the best score and the best so far.
  pub search_best : List String → List (List ℕ) → W × List ℕ → W × List ℕ
  search_best genders [] best = best
  search_best genders (perm ∷ perms) (best_score, best) = search_best genders perms (
      if f.lt best_score (score genders perm)
      then (score genders perm, perm)
      else (best_score, best))

  pub pool_size : ℕ → ℕ → ℕ
  pool_size k pool_extra = min (length clusters) (max (2 * k) (k + pool_extra))

  -- The best score and the best permutation, when the loop ends.
  pub best_of : List String → ℕ → W × List ℕ
  unfolding search_best pool_size permutations range
  best_of genders pool_extra =
      let k = length genders in
      let pool_n = pool_size k pool_extra in
      let r = min k pool_n in
      search_best genders (permutations r (range 0 pool_n)) (f.sub nought one, range 0 r)

  pub assign_sources_to_clusters : List String → ℕ → List ℕ
  unfolding best_of
  assign_sources_to_clusters genders pool_extra =
      let k = length genders in
      let out = (best_of genders pool_extra).1 in
      if length clusters == 0 then replicate k 0 else take k (out ++ replicate (k - length out) 0)
