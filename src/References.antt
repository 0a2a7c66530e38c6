-- ===== src/References.antt =====
-- src/face_swap/reference_extractor.py: the greedy clustering of the faces sampled from a video, and
-- the binding of the sources to the clusters. A candidate is its index; numpy's argmax and the
-- similarities are parameters.
pub mod Rounds
pub mod Binding
pub mod Samples
use face_swap_streamer_versi.Prelude.{
  ℕ, zero, suc, ◌+◌, ◌-◌, min, max, Bool, true, false, not, ◌&&◌, ◌||◌, ◌==◌, ltb, leb,
  if◌then◌else◌, List, [], ◌∷◌, ◌++◌, map, Option, none, some, String, Eq, string_eq, length,
  select, any, count_up, count_below, update, get_elem?,
}
use face_swap_streamer_versi.Floats.{Floats, nought, one}
use face_swap_streamer_versi.Clusters.{Cluster, assign_sources_to_clusters}

pub record Candidates (W : Type 0) : Type 0 where
  pub count : ℕ
  pub sim : ℕ → ℕ → W  -- embs @ embs.T
  pub scores : ℕ → W
  pub gender_labels : ℕ → String
  pub frame : ℕ → ℕ
  -- np.argmax of the first `count` values
  pub argmax : (ℕ → W) → ℕ

-- An entry of `clusters`.
pub record Group (W : Type 0) : Type 0 where
  pub rep : ℕ
  pub members : List ℕ
  pub size : ℕ
  pub score : W
  pub gender : String
  pub m_frac : W
  pub f_frac : W

-- The locals of the loop.
pub record Progress (W : Type 0) : Type 0 where
  pub clusters : List (Group W)
  pub unused : ℕ → Bool

-- unused[members] = False
pub clear : List ℕ → (ℕ → Bool) → ℕ → Bool
clear members unused j = if any (λ m. m == j) members then false else unused j

module _ {W : Type 0} ⦃f : Floats W⦄ where
  module _ (c : Candidates W) (thresh : W) where
    abbrev pub near : ℕ → ℕ → Bool
    near rep m = f.lt thresh (c.sim rep m)

    pub votes : (ℕ → Bool) → ℕ → W
    votes unused i =
        f.mul (f.mul (f.dec (count_below c.count (near i)) 0) (c.scores i))
          (if unused i then one else nought)

    -- np.where(unused & (sim[rep] > thresh))[0]
    pub members_of : ℕ → (ℕ → Bool) → List ℕ
    members_of rep unused = select (λ m. unused m && near rep m) (count_up 0 c.count)

    pub labelled : String → List ℕ → ℕ
    labelled g members = length (select (λ m. string_eq.beq (c.gender_labels m) g) members)

    pub new_group : ℕ → List ℕ → Group W
    unfolding labelled
    new_group rep members =
        let n_m = labelled "M" members in
        let n_f = labelled "F" members in
        let tot = max 1 (n_m + n_f) in
        record {
          rep = rep;
          members = members;
          size = length members;
          score = c.scores rep;
          gender = if leb n_f n_m then "M" else "F";
          m_frac = f.div (f.dec n_m 0) (f.dec tot 0);
          f_frac = f.div (f.dec n_f 0) (f.dec tot 0);
        }

    -- What a round claims for its representative.
    pub claim : ℕ → List ℕ → Progress W → Progress W
    unfolding new_group clear
    claim rep [] p = record p { unused = update p.unused rep false }
    claim rep (m ∷ ms) p = record {
      clusters = p.clusters ++ new_group rep (m ∷ ms) ∷ [];
      unused = clear (m ∷ ms) p.unused;
    }

    -- The body of the loop; `none` is its break.
    pub round : Progress W → Option (Progress W)
    unfolding votes members_of claim
    round p =
        let rep = c.argmax (votes p.unused) in
        if not (p.unused rep) || f.le (votes p.unused rep) nought
        then none
        else some (claim rep (members_of rep p.unused) p)

    -- while unused.any(), for a number of rounds; `none` means that they did not suffice.
    pub cluster_loop : ℕ → Progress W → Option (Progress W)
    unfolding round
    cluster_loop zero p = if ltb 0 (count_below c.count p.unused) then none else some p
    cluster_loop (suc k) p =
        let rest : Option (Progress W) = elim (round p) [
          | none ↦ some p
          | some q ↦ cluster_loop k q
        ] in
        if ltb 0 (count_below c.count p.unused) then rest else some p

  -- The order of the sort key (-size, -score).
  pub before : Group W → Group W → Bool
  before a b = ltb b.size a.size || (a.size == b.size && f.lt b.score a.score)

  pub insert_group : Group W → List (Group W) → List (Group W)
  unfolding before
  insert_group g [] = g ∷ []
  insert_group g (h ∷ hs) = if before h g then h ∷ insert_group g hs else g ∷ h ∷ hs

  -- clusters.sort(key=...), which is stable.
  pub sort_groups : List (Group W) → List (Group W)
  unfolding insert_group
  sort_groups [] = []
  sort_groups (g ∷ gs) = insert_group g (sort_groups gs)

  -- The clusters, when the loop has ended; it takes at most one round for each candidate.
  pub cluster_embeddings : Candidates W → W → Option (List (Group W))
  unfolding cluster_loop sort_groups
  cluster_embeddings c thresh =
      elim (cluster_loop c thresh c.count (record { clusters = []; unused = λ _. true })) [
        | none ↦ none
        | some p ↦ some (sort_groups p.clusters)
      ]

  abbrev pub to_cluster : Group W → Cluster W
  to_cluster g = record { size = f.dec g.size 0; m_frac = g.m_frac; f_frac = g.f_frac }

-- An entry of the result; the reference embedding is the mean over `ref_members`.
pub record Reference : Type 0 where
  pub ref_members : List ℕ
  pub gender : String
  pub ref_frame : ℕ
  pub ref_votes : ℕ

pub data Extracted : Type 0 where
  no_face : Extracted  -- DetectionError
  index_error : Extracted  -- clusters[-1] of an empty list
  bound : List Reference → Extracted

abbrev pub cons_reference : Reference → Extracted → Extracted
cons_reference r no_face = no_face
cons_reference r index_error = index_error
cons_reference r (bound rs) = bound (r ∷ rs)

module _ {W : Type 0} ⦃f : Floats W⦄ (c : Candidates W) where
  abbrev pub reference : String → Group W → Reference
  reference g h = record {
    ref_members = h.members;
    gender = g;
    ref_frame = c.frame h.rep;
    ref_votes = h.size;
  }

  -- The loop over enumerate(assign), with the genders of the sources.
  pub bind_sources : List (Group W) → List String → List ℕ → Extracted
  bind_sources clusters [] assign = bound []
  bind_sources clusters (g ∷ gs) [] = bound []
  bind_sources clusters (g ∷ gs) (ci ∷ assign) =
      let rest = bind_sources clusters gs assign in
      elim (get_elem? clusters (min ci (length clusters - 1))) [
        | none ↦ index_error
        | some h ↦ cons_reference (reference g h) rest
      ]

  -- `extract_references` after its scan of the video.
  pub extract_references : List String → Option Extracted
  unfolding cluster_embeddings bind_sources
  extract_references source_genders =
      if c.count == 0 then some no_face else elim (cluster_embeddings c (f.dec 30 2)) [
        | none ↦ none
        | some clusters ↦ some (
            bind_sources clusters source_genders
              (assign_sources_to_clusters (map to_cluster clusters) source_genders 4))
      ]
