-- ===== src/References/Binding.antt =====
-- extract_references: each source gets a cluster.
use face_swap_streamer_versi.Prelude.{
  ℕ, zero, suc, ◌-◌, ◌<◌, ◌≡◌, refl, ap, sym, ◌∙◌, true, false, ◌==◌, min, List, [], ◌∷◌, map, some,
  String, length, get_elem?, All, Ends→some, arith,
}
use face_swap_streamer_versi.Floats.{Floats, IsIeee}
use face_swap_streamer_versi.Clusters.{assign_sources_to_clusters}
use face_swap_streamer_versi.Clusters.Best.{assign_sources_to_clusters-best}
use face_swap_streamer_versi.References.{
  Candidates, Group, near, cluster_embeddings, to_cluster, Reference, bound, reference,
  bind_sources, extract_references,
}
use face_swap_streamer_versi.References.Rounds.{Sound, claims}
use face_swap_streamer_versi.References.Rounds.Sorted.{cluster_embeddings-Disjoint}
use face_swap_streamer_versi.References.Rounds.Partition.{Fair, cluster_embeddings-Partition}

get_elem?-All {ℓ κ} :
    {A : Type ℓ} (P : A → Type κ) (xs : List A) (i : ℕ)
    → i < length xs
    → All P xs
    → (x : A) × (get_elem? xs i ≡ some x) × P x
get_elem?-All P [] i lt h = absurd (omega arith)
get_elem?-All P (x ∷ xs) zero lt h = (x, refl, h.0)
get_elem?-All P (x ∷ xs) (suc i) lt h = get_elem?-All P xs i (omega arith) h.1

module _ {W : Type 0} ⦃f : Floats W⦄ (c : Candidates W) where
  -- The references of the sources, in order: of its gender, with at least one member and a vote
  -- for each, all of them candidates.
  abbrev pub Binds : List String → List Reference → Type 0
  Binds [] [] = Unit
  Binds (g ∷ gs) (r ∷ rs) =
      ((r.gender ≡ g)
        × (r.ref_votes ≡ length r.ref_members)
        × (0 < r.ref_votes)
        × All (λ m. m < c.count) r.ref_members)
      × Binds gs rs
  Binds _ _ = ⊥

  candidates-only :
      (thresh : W) (rep : ℕ) (ms : List ℕ)
      → All (λ m. (m < c.count) × (near c thresh rep m ≡ true)) ms
      → All (λ m. m < c.count) ms
  candidates-only thresh rep [] h = tt
  candidates-only thresh rep (m ∷ ms) h = ((h.0).0, candidates-only thresh rep ms h.1)

  bind_one :
      (clusters : List (Group W)) (g : String) (gs : List String) (ci : ℕ) (assign : List ℕ)
      (h : Group W) (rs : List Reference)
      → get_elem? clusters (min ci (length clusters - 1)) ≡ some h
      → bind_sources c clusters gs assign ≡ bound rs
      → bind_sources c clusters (g ∷ gs) (ci ∷ assign) ≡ bound (reference c g h ∷ rs)
  unfolding bind_sources
  bind_one clusters g gs ci assign h rs found rest = rw (found, rest, bind_sources) refl

  bind_sources-Binds :
      (thresh : W) (clusters : List (Group W))
      → 0 < length clusters
      → All (Sound c thresh) clusters
      → (genders : List String) (assign : List ℕ) → length assign ≡ length genders
      → (rs : List Reference) × (bind_sources c clusters genders assign ≡ bound rs)
        × Binds genders rs
  unfolding bind_sources
  bind_sources-Binds thresh clusters some_one sound [] assign same = ([], refl, tt)
  bind_sources-Binds thresh clusters some_one sound (g ∷ gs) [] same = absurd (omega arith)
  bind_sources-Binds thresh clusters some_one sound (g ∷ gs) (ci ∷ assign) same =
      let (h, found, (_, many, size, near_ones)) =
        get_elem?-All (Sound c thresh) clusters (min ci (length clusters - 1)) (omega arith)
          sound in
      let (rs, rest, binds) =
        bind_sources-Binds thresh clusters some_one sound gs assign (omega arith) in
      (
        reference c g h ∷ rs,
        bind_one clusters g gs ci assign h rs found rest,
        ((refl, size, omega arith, candidates-only thresh h.rep h.members near_ones), binds),
      )

  -- The video shows a face, numpy's argmax gives the index of a greatest value of values without
  -- NaN, no vote is NaN, an unused candidate has a positive vote and a used one has none, and
  -- every candidate is near itself: then
  -- `extract_references` returns one reference for each source, in order and of its gender, with
  -- at least one member and as many votes as members, all of them candidates. The float
  -- comparisons are those of IEEE 754.
  pub extract_references-Binds :
      (ieee : IsIeee W) (genders : List String)
      → 0 < c.count
      → Fair c (f.dec 30 2)
      → (rs : List Reference) × (extract_references c genders ≡ some (bound rs)) × Binds genders rs
  unfolding extract_references
  extract_references-Binds ieee genders faces fair =
      let thresh = f.dec 30 2 in
      let (clusters, made, (sound, once, fall)) =
        Ends→some _ (cluster_embeddings c thresh)
          (cluster_embeddings-Disjoint c thresh fair.in_range) in
      let (clusters', made', each) =
        Ends→some _ (cluster_embeddings c thresh)
          (cluster_embeddings-Partition ieee c thresh fair 0 faces) in
      let same : clusters' ≡ clusters = cc in
      let (rs, bind, binds) =
        bind_sources-Binds thresh clusters
          (some_cluster clusters (ap (claims c thresh 0) (sym same) ∙ each)) sound genders
          (assign_sources_to_clusters (map to_cluster clusters) genders 4)
          ((assign_sources_to_clusters-best ieee (map to_cluster clusters) genders 4).0) in
      (rs, rw (no_empty c.count faces, made, bind), binds)
    where
      some_cluster : (gs : List (Group W)) → claims c (f.dec 30 2) 0 gs ≡ 1 → 0 < length gs
      some_cluster [] h = absurd (omega arith)
      some_cluster (g ∷ gs) h = omega arith

      no_empty : (n : ℕ) → 0 < n → (n == 0) ≡ false
      no_empty n h = ground arith
