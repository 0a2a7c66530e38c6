-- ===== src/Clusters/Samples.antt =====
-- assign_sources_to_clusters: a man, a woman and three clusters.
use face_swap_streamer_versi.Prelude.{
  ◌≡◌, ◌⊎◌, ◌<◌, ◌-◌, ◌++◌, replicate, refl, List, [], ◌∷◌, String, length, All, min,
}
use face_swap_streamer_versi.Floats.{nought, one}
use face_swap_streamer_versi.Floats.Fixed.{ℤ, pos, fixed_floats, ℤ-IsIeee}
use face_swap_streamer_versi.Clusters.{
  Cluster, range, permutations, score, score_from, fit, picks, concat_map, search_best, pool_size,
  best_of, assign_sources_to_clusters,
}
use face_swap_streamer_versi.Clusters.Best.{Within, assign_sources_to_clusters-best}

abbrev clusters : List (Cluster ℤ)
clusters =
    record { size = pos 90000; m_frac = pos 900; f_frac = pos 100 }
    ∷ record { size = pos 60000; m_frac = pos 800; f_frac = pos 200 }
    ∷ record { size = pos 30000; m_frac = pos 200; f_frac = pos 800 }
    ∷ []

abbrev genders : List String
genders = "F" ∷ "M" ∷ []

-- The woman gets the third cluster, though the second is larger.
assigned : assign_sources_to_clusters clusters genders 4 ≡ 2 ∷ 0 ∷ []
unfolding assign_sources_to_clusters best_of search_best score score_from fit permutations picks
    concat_map range pool_size
assigned = refl

assign_sources_to_clusters-best_example :
    let pool_n = pool_size clusters 2 4 in
    let r = min 2 pool_n in
    let found = best_of clusters genders 4 in
    let answer = assign_sources_to_clusters clusters genders 4 in
    (length answer ≡ 2)
    × ((length clusters ≡ 0) × (answer ≡ replicate 2 0)
        ⊎ (0 < length clusters) × (answer ≡ found.1 ++ replicate (2 - length found.1) 0))
    × All (Within ℤ-IsIeee clusters genders found.0) (permutations r (range 0 pool_n))
    × ((found.0 ≡ score clusters genders found.1)
        ⊎ ((found.0 ≡ fixed_floats.sub nought one) × (found.1 ≡ range 0 r)))
assign_sources_to_clusters-best_example =
    assign_sources_to_clusters-best ℤ-IsIeee clusters genders 4
