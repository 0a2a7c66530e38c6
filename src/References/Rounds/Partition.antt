-- ===== src/References/Rounds/Partition.antt =====
-- cluster_embeddings: where the votes are as they should be, every candidate gets its cluster.
use face_swap_streamer_versi.Prelude.{
  ℕ, zero, suc, ◌+◌, ◌≤◌, ◌<◌, ◌≡◌, refl, ap, ◌⊎◌, inl, inr, Bool, true, false, not, ◌&&◌, ◌==◌,
  ltb, if◌then◌else◌, List, [], ◌∷◌, ◌++◌, some, select, any, count_up, count_below, count_below-le,
  sum_of-snoc, Ends, Ends→some, Bool-cases, arith,
}
use face_swap_streamer_versi.Floats.{Floats, IsIeee, nought}
use face_swap_streamer_versi.References.{
  Candidates, Progress, clear, near, votes, members_of, new_group, claim, round, cluster_loop,
  cluster_embeddings,
}
use face_swap_streamer_versi.References.Rounds.{
  times, claims, times-before, absent, clear_in, clear_out, count_below-lt, clear-off,
}
use face_swap_streamer_versi.References.Rounds.Sorted.{sort-sum}

-- An index of the range that passes stands in the selection once.
times-select_in :
    (p : ℕ → Bool) (i k n : ℕ)
    → k ≤ i
    → i < k + n
    → times i (select p (count_up k n)) ≡ (if p i then 1 else 0)
times-select_in p i k zero lo hi = absurd (omega arith)
times-select_in p i k (suc n) lo hi = elim (Bool-cases (i == k)) [
  | inl e ↦
      let same : (i ≡ k) = ground arith in ground (arith, ap p same, times-before p i (suc k) n)
  | inr e ↦ ground (arith, times-select_in p i (suc k) n)
]

present : (i : ℕ) (ms : List ℕ) → 0 < times i ms → any (λ m. m == i) ms ≡ true
present i [] h = absurd (omega arith)
present i (m ∷ ms) h = ground (arith, present i ms)

hits : (i : ℕ) (ms : List ℕ) → any (λ m. m == i) ms ≡ true → 0 < times i ms
hits i [] h = absurd (cc)
hits i (m ∷ ms) h = ground (arith, hits i ms)

once_if :
    {n : ℕ} (a b : Bool)
    → n ≡ (if a && b then 1 else 0)
    → 0 < n
    → (n ≡ 1) × (◌≡◌ {A = ℕ} (if a then 1 else 0) 1)
once_if true true e h = (e, refl)
once_if true false e h = absurd (omega arith)
once_if false b e h = absurd (omega arith)

some_below : (n : ℕ) (f : ℕ → Bool) → 0 < count_below n f → (j : ℕ) × (j < n) × (f j ≡ true)
some_below zero f h = absurd (omega arith)
some_below (suc n) f h = elim (Bool-cases (f n)) [
  | inl on ↦ (n, omega arith, on)
  | inr off ↦ let (j, lt, on) = some_below n f (ground arith) in (j, omega arith, on)
]

none_below : (n : ℕ) (f : ℕ → Bool) (i : ℕ) → count_below n f ≡ 0 → i < n → f i ≡ false
none_below zero f i h lt = absurd (omega arith)
none_below (suc n) f i h lt = elim (Bool-cases (i == n)) [
  | inl e ↦ let same : (i ≡ n) = ground arith in ground (arith, ap f same)
  | inr e ↦ ground (arith, none_below n f i)
]

-- What the votes are on well-formed candidates: numpy's argmax is an index, and that of a greatest
-- value if none of them is NaN; no vote is NaN, an unused candidate has a positive vote, a used one
-- has none, and each is near itself.
pub record Fair {W : Type 0} ⦃f : Floats W⦄ (c : Candidates W) (thresh : W) : Type 0 where
  pub in_range : (v : ℕ → W) → 0 < c.count → c.argmax v < c.count
  pub greatest :
      (v : ℕ → W) (i : ℕ)
      → ((j : ℕ) → j < c.count → f.le (v j) (v j) ≡ true)
      → i < c.count
      → f.le (v i) (v (c.argmax v)) ≡ true
  pub numbers :
      (unused : ℕ → Bool) (i : ℕ)
      → i < c.count
      → f.le (votes c thresh unused i) (votes c thresh unused i) ≡ true
  pub counts :
      (unused : ℕ → Bool) (i : ℕ)
      → i < c.count
      → f.le (votes c thresh unused i) nought ≡ not (unused i)
  pub itself : (i : ℕ) → i < c.count → near c thresh i i ≡ true

module _ {W : Type 0} ⦃f : Floats W⦄ (ieee : IsIeee W) (c : Candidates W) (thresh : W)
    (fair : Fair c thresh) where
  abbrev Whole : Progress W → Type 0
  Whole p = (i : ℕ) → i < c.count → claims c thresh i p.clusters + (if p.unused i then 1 else 0) ≡ 1

  abbrev left : Progress W → ℕ
  left p = count_below c.count p.unused

  claim-Whole :
      (rep : ℕ) (p : Progress W) (ms : List ℕ)
      → rep < c.count
      → p.unused rep ≡ true
      → ((i : ℕ) → i < c.count → times i ms ≡ (if p.unused i && near c thresh rep i then 1 else 0))
      → Whole p
      → Whole (claim c thresh rep ms p)
        × (count_below c.count (claim c thresh rep ms p).unused < left p)
  unfolding claim new_group
  claim-Whole rep p [] lt on each k = absurd (ground (arith, each rep lt, fair.itself rep lt, on))
  claim-Whole rep p (m ∷ ms) lt on each k = (
    λ i below. step i below (Bool-cases (any (λ x. x == i) (m ∷ ms))),
    count_below-lt c.count rep p.unused (clear (m ∷ ms) p.unused) (clear-off (m ∷ ms) p.unused) lt
        on
        (clear_in (m ∷ ms) p.unused rep
          (present rep (m ∷ ms) (ground (arith, each rep lt, fair.itself rep lt, on)))),
  )
    where
      step :
          (i : ℕ)
          → i < c.count
          → (any (λ x. x == i) (m ∷ ms) ≡ true) ⊎ (any (λ x. x == i) (m ∷ ms) ≡ false)
          → claims c thresh i (p.clusters ++ new_group c thresh rep (m ∷ ms) ∷ [])
              + (if clear (m ∷ ms) p.unused i then 1 else 0)
            ≡ 1
      step i below (inl taken) =
          let (one_time, was_free) =
            once_if (p.unused i) (near c thresh rep i) (each i below) (hits i (m ∷ ms) taken) in
          rw (clear_in (m ∷ ms) p.unused i taken) (
            omega (
              arith,
              sum_of-snoc (λ g. times i g.members) p.clusters (new_group c thresh rep (m ∷ ms)),
              one_time,
              was_free,
              k i below,
            ))
      step i below (inr free) = rw (clear_out (m ∷ ms) p.unused i free) (
          omega (
            arith,
            sum_of-snoc (λ g. times i g.members) p.clusters (new_group c thresh rep (m ∷ ms)),
            absent i (m ∷ ms) free,
            k i below,
          ))

  -- While a candidate is unused, a round goes on.
  round-Whole :
      (p : Progress W)
      → 0 < left p
      → Whole p
      → (q : Progress W) × (round c thresh p ≡ some q) × Whole q × (left q < left p)
  unfolding round members_of
  round-Whole p more k =
      let rep = c.argmax (votes c thresh p.unused) in
      let lt =
        fair.in_range (votes c thresh p.unused) (omega (arith, count_below-le c.count p.unused)) in
      let (i, below, free) = some_below c.count p.unused more in
      let voted : f.le (votes c thresh p.unused rep) nought ≡ false = ground (
        arith,
        ieee.le_trans (votes c thresh p.unused i) (votes c thresh p.unused rep) nought,
        fair.greatest (votes c thresh p.unused) i (fair.numbers p.unused) below,
        fair.counts p.unused i below,
        free,
      ) in
      let on : p.unused rep ≡ true = ground (arith, fair.counts p.unused rep lt, voted) in
      let (whole, less) =
        claim-Whole rep p (members_of c thresh rep p.unused) lt on
          (λ j jn.
            times-select_in (λ m. p.unused m && near c thresh rep m) j 0 c.count (omega arith)
              (omega arith))
          k in
      (claim c thresh rep (members_of c thresh rep p.unused) p, rw (on, voted), whole, less)

  cluster_loop-Whole :
      (rounds : ℕ) (p : Progress W)
      → Whole p
      → left p ≤ rounds
      → Ends (λ q. Whole q × (left q ≡ 0)) (cluster_loop c thresh rounds p)
  unfolding cluster_loop
  cluster_loop-Whole zero p k few = elim (Bool-cases (ltb 0 (left p))) [
    | inl more ↦ absurd (ground arith)
    | inr done ↦ rw done (k, omega arith)
  ]
  cluster_loop-Whole (suc rounds) p k few = elim (Bool-cases (ltb 0 (left p))) [
    | inr done ↦ rw done (k, ground arith)
    | inl more ↦
        let (q, went, whole, less) = round-Whole p (ground arith) k in
        rw (more, went) (cluster_loop-Whole rounds q whole (omega arith))
  ]

  -- Where numpy's argmax gives the index of a greatest value of values without NaN, no vote is
  -- NaN, an unused candidate has a positive vote and a used one has none, and every candidate is
  -- near itself: the clustering ends and every candidate is in exactly one cluster. The float
  -- comparisons are those of IEEE 754.
  pub cluster_embeddings-Partition :
      (i : ℕ) → i < c.count → Ends (λ gs. claims c thresh i gs ≡ 1) (cluster_embeddings c thresh)
  unfolding cluster_embeddings
  cluster_embeddings-Partition i below =
      let p : Progress W = record { clusters = []; unused = λ _. true } in
      let (q, done, (whole, over)) =
        Ends→some (λ q. Whole q × (left q ≡ 0)) (cluster_loop c thresh c.count p)
          (cluster_loop-Whole c.count p (λ j in_range. refl)
            (count_below-le c.count (λ _. true))) in
      rw (done, cluster_embeddings)
        (ground (
          arith,
          sort-sum (λ g. times i g.members) q.clusters,
          whole i below,
          none_below c.count q.unused i over below,
        ))
