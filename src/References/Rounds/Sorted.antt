-- ===== src/References/Rounds/Sorted.antt =====
-- cluster_embeddings: it ends, and its clusters do not overlap and fall in size.
use face_swap_streamer_versi.Prelude.{
  ℕ, zero, suc, ◌+◌, ◌≤◌, ◌<◌, ◌≡◌, refl, ◌⊎◌, inl, inr, true, false, not, ◌&&◌, ◌||◌, ltb, List,
  [], ◌∷◌, none, some, All, count_below, count_below-le, sum_of, Ends, Ends→some, Bool-cases, arith,
}
use face_swap_streamer_versi.Floats.{Floats, nought}
use face_swap_streamer_versi.References.{
  Candidates, Group, Progress, near, votes, members_of, claim, round, cluster_loop, before,
  insert_group, sort_groups, cluster_embeddings,
}
use face_swap_streamer_versi.References.Rounds.{
  times, Sound, claims, Kept, claim-Kept, times-select, select-below,
}

module _ {W : Type 0} ⦃f : Floats W⦄ (c : Candidates W) (thresh : W)
    (in_range : (v : ℕ → W) → 0 < c.count → c.argmax v < c.count) where
  abbrev left : Progress W → ℕ
  left p = count_below c.count p.unused

  round-Kept :
      (p : Progress W)
      → 0 < left p
      → Kept c thresh p
      → (round c thresh p ≡ none)
        ⊎ ((q : Progress W) × (round c thresh p ≡ some q) × Kept c thresh q × (left q < left p))
  unfolding round members_of
  round-Kept p more k =
      let rep = c.argmax (votes c thresh p.unused) in
      elim (Bool-cases (not (p.unused rep) || f.le (votes c thresh p.unused rep) nought)) [
        | inl stop ↦ inl (rw stop)
        | inr go ↦
            let (kept, less) =
              claim-Kept c thresh rep p (members_of c thresh rep p.unused)
                (in_range _ (omega (arith, count_below-le c.count p.unused))) (ground (arith, go))
                (select-below (λ m. p.unused m && near c thresh rep m) c.count)
                (λ i. times-select (λ m. p.unused m && near c thresh rep m) i 0 c.count) k in
            inr (claim c thresh rep (members_of c thresh rep p.unused) p, rw go, kept, less)
      ]

  -- One round for each candidate that is left is enough.
  cluster_loop-Kept :
      (rounds : ℕ) (p : Progress W)
      → Kept c thresh p
      → left p ≤ rounds
      → Ends (Kept c thresh) (cluster_loop c thresh rounds p)
  unfolding cluster_loop
  cluster_loop-Kept zero p k few = elim (Bool-cases (ltb 0 (left p))) [
    | inl more ↦ absurd (ground arith)
    | inr done ↦ rw done k
  ]
  cluster_loop-Kept (suc rounds) p k few = elim (Bool-cases (ltb 0 (left p))) [
    | inr done ↦ rw done k
    | inl more ↦ elim (round-Kept p (ground arith) k) [
      | inl stop ↦ rw (more, stop) k
      | inr (q, went, kept, less) ↦ rw (more, went) (cluster_loop-Kept rounds q kept (omega arith))
    ]
  ]

module _ {W : Type 0} ⦃f : Floats W⦄ where
  -- The sizes do not rise.
  abbrev pub Falling : List (Group W) → Type 0
  Falling [] = Unit
  Falling (g ∷ []) = Unit
  Falling (g ∷ h ∷ hs) = (h.size ≤ g.size) × Falling (h ∷ hs)

  before-le : (g h : Group W) → before g h ≡ true → h.size ≤ g.size
  unfolding before
  before-le g h b = ground arith

  before-ge : (g h : Group W) → before g h ≡ false → g.size ≤ h.size
  unfolding before
  before-ge g h b = ground arith

  below-Falling :
      (h g : Group W) (hs : List (Group W))
      → before h g ≡ true
      → Falling (h ∷ hs)
      → Falling (h ∷ insert_group g hs)
  unfolding insert_group
  below-Falling h g [] b fall = (before-le h g b, tt)
  below-Falling h g (k ∷ ks) b fall = elim (Bool-cases (before k g)) [
    | inl d ↦ rw d (fall.0, below-Falling k g ks d fall.1)
    | inr d ↦ rw d (before-le h g b, (before-ge k g d, fall.1))
  ]

  insert-Falling : (g : Group W) (hs : List (Group W)) → Falling hs → Falling (insert_group g hs)
  unfolding insert_group
  insert-Falling g [] fall = tt
  insert-Falling g (h ∷ hs) fall = elim (Bool-cases (before h g)) [
    | inl b ↦ rw b (below-Falling h g hs b fall)
    | inr b ↦ rw b (before-ge h g b, fall)
  ]

  insert-sum :
      (w : Group W → ℕ) (g : Group W) (hs : List (Group W))
      → sum_of w (insert_group g hs) ≡ w g + sum_of w hs
  unfolding insert_group
  insert-sum w g [] = refl
  insert-sum w g (h ∷ hs) = ground (arith, insert-sum w g hs)

  pub sort-sum : (w : Group W → ℕ) (gs : List (Group W)) → sum_of w (sort_groups gs) ≡ sum_of w gs
  unfolding sort_groups
  sort-sum w [] = refl
  sort-sum w (g ∷ gs) = omega (arith, insert-sum w g (sort_groups gs), sort-sum w gs)

  insert-All :
      (P : Group W → Type 0) (g : Group W) (hs : List (Group W))
      → P g
      → All P hs
      → All P (insert_group g hs)
  unfolding insert_group
  insert-All P g [] hg hh = (hg, tt)
  insert-All P g (h ∷ hs) hg hh = elim (Bool-cases (before h g)) [
    | inl b ↦ rw b (hh.0, insert-All P g hs hg hh.1)
    | inr b ↦ rw b (hg, hh)
  ]

  sort-All : (P : Group W → Type 0) (gs : List (Group W)) → All P gs → All P (sort_groups gs)
  unfolding sort_groups
  sort-All P [] h = tt
  sort-All P (g ∷ gs) h = insert-All P g (sort_groups gs) h.0 (sort-All P gs h.1)

  sort-Falling : (gs : List (Group W)) → Falling (sort_groups gs)
  unfolding sort_groups
  sort-Falling [] = tt
  sort-Falling (g ∷ gs) = insert-Falling g (sort_groups gs) (sort-Falling gs)

-- On similarities of which numpy's argmax gives an index: the clustering ends after at most one
-- round for each candidate. Each cluster has at least one member, as many as its size says, and
-- every member is a candidate whose similarity to the representative is above the threshold. No
-- candidate is in two clusters, and the sizes fall from each cluster to the next or stay equal.
pub cluster_embeddings-Disjoint :
    {W : Type 0} ⦃f : Floats W⦄ (c : Candidates W) (thresh : W)
    → ((v : ℕ → W) → 0 < c.count → c.argmax v < c.count)
    → Ends
        (λ gs. All (Sound c thresh) gs × ((i : ℕ) → claims c thresh i gs ≤ 1) × Falling gs)
        (cluster_embeddings c thresh)
unfolding cluster_embeddings
cluster_embeddings-Disjoint c thresh in_range =
    let p : Progress _ = record { clusters = []; unused = λ _. true } in
    let (q, done, k) = Ends→some (Kept c thresh) (cluster_loop c thresh c.count p) (
      cluster_loop-Kept c thresh in_range c.count p
        (record { sound = tt; apart = λ i. omega arith }) (count_below-le c.count (λ _. true))) in
    rw (done, cluster_embeddings)
      (
        sort-All (Sound c thresh) q.clusters k.sound,
        λ i. omega (arith, sort-sum (λ g. times i g.members) q.clusters, k.apart i),
        sort-Falling q.clusters,
      )
