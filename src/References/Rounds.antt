-- ===== src/References/Rounds.antt =====
-- A round of cluster_embeddings: what it claims nobody has claimed, and it uses up candidates.
pub mod Sorted
pub mod Partition
use face_swap_streamer_versi.Prelude.{
  ℕ, zero, suc, ◌+◌, ◌≤◌, ◌<◌, ◌≡◌, refl, ap, sym, subst, ◌∙◌, ◌⊎◌, inl, inr, Bool, true, false,
  not, ◌&&◌, ◌||◌, ◌==◌, ltb, if◌then◌else◌, List, [], ◌∷◌, ◌++◌, Option, none, some, length,
  select, any, All, All-append, All-mono, count_up, count_below, update, hit, sum_of, sum_of-snoc,
  sum_of-middle, Ends, Ends-mono, Bool-cases, arith,
}
use face_swap_streamer_versi.Floats.{Floats, nought}
use face_swap_streamer_versi.References.{
  Candidates, Group, Progress, clear, near, votes, members_of, new_group, claim, round,
  cluster_loop, before, insert_group, sort_groups, cluster_embeddings,
}

-- How often a candidate stands in a list.
abbrev pub times : ℕ → List ℕ → ℕ
times i = sum_of (hit i)

-- A candidate of the selection is above the first index, and stands there once.
pub times-before : (p : ℕ → Bool) (i k n : ℕ) → i < k → times i (select p (count_up k n)) ≡ 0
times-before p i k zero h = refl
times-before p i k (suc n) h = elim (Bool-cases (p k)) [
  | inl on ↦ rw on (ground (arith, times-before p i (suc k) n (omega arith)))
  | inr off ↦ rw off (times-before p i (suc k) n (omega arith))
]

pub times-select :
    (p : ℕ → Bool) (i k n : ℕ) → times i (select p (count_up k n)) ≤ (if p i then 1 else 0)
times-select p i k zero = ground arith
times-select p i k (suc n) = elim (Bool-cases (p k)) [
  | inl on ↦ rw on (ground (arith, times-select p i (suc k) n, times-before p i (suc k) n))
  | inr off ↦ rw off (times-select p i (suc k) n)
]

select-All :
    (p : ℕ → Bool) (n k : ℕ) → All (λ m. (m < k + n) × (p m ≡ true)) (select p (count_up k n))
select-All p zero k = tt
select-All p (suc n) k = elim (Bool-cases (p k)) [
  | inl on ↦ rw on (
    (omega arith, on),
    All-mono (λ m. (m < suc k + n) × (p m ≡ true)) (λ m. (m < k + suc n) × (p m ≡ true)) _
        (λ m h. (omega (arith, h.0), h.1)) (select-All p n (suc k)),
  )
  | inr off ↦ rw off (
      All-mono (λ m. (m < suc k + n) × (p m ≡ true)) (λ m. (m < k + suc n) × (p m ≡ true)) _
        (λ m h. (omega (arith, h.0), h.1)) (select-All p n (suc k)))
]

pub select-below :
    (p : ℕ → Bool) (n : ℕ) → All (λ m. (m < n) × (p m ≡ true)) (select p (count_up 0 n))
select-below p n =
    All-mono (λ m. (m < 0 + n) × (p m ≡ true)) (λ m. (m < n) × (p m ≡ true)) _
      (λ m h. (omega (arith, h.0), h.1)) (select-All p n 0)

pub absent : (i : ℕ) (ms : List ℕ) → any (λ m. m == i) ms ≡ false → times i ms ≡ 0
absent i [] h = refl
absent i (m ∷ ms) h = ground (arith, absent i ms)

count_below_mono :
    (n : ℕ) (f g : ℕ → Bool)
    → ((j : ℕ) → g j ≡ true → f j ≡ true)
    → count_below n g ≤ count_below n f
count_below_mono zero f g h = omega arith
count_below_mono (suc n) f g h = ground (arith, h n, count_below_mono n f g h)

pub count_below-lt :
    (n m : ℕ) (f g : ℕ → Bool)
    → ((j : ℕ) → g j ≡ true → f j ≡ true)
    → m < n
    → f m ≡ true
    → g m ≡ false
    → count_below n g < count_below n f
count_below-lt zero m f g h lt on off = absurd (omega arith)
count_below-lt (suc n) m f g h lt on off = elim (Bool-cases (m == n)) [
  | inl e ↦
      let last : (m ≡ n) = ground arith in
      ground (arith, ap f last, ap g last, count_below_mono n f g h)
  | inr e ↦ ground (arith, h n, count_below-lt n m f g h (ground arith) on off)
]

pub clear-off :
    (ms : List ℕ) (unused : ℕ → Bool) (j : ℕ) → clear ms unused j ≡ true → unused j ≡ true
unfolding clear
clear-off ms unused j h = ground (arith, h)

pub clear_in :
    (ms : List ℕ) (unused : ℕ → Bool) (i : ℕ)
    → any (λ m. m == i) ms ≡ true
    → clear ms unused i ≡ false
unfolding clear
clear_in ms unused i h = rw h

pub clear_out :
    (ms : List ℕ) (unused : ℕ → Bool) (i : ℕ)
    → any (λ m. m == i) ms ≡ false
    → clear ms unused i ≡ unused i
unfolding clear
clear_out ms unused i h = rw h

fewer : {n : ℕ} (a b : Bool) → n ≤ (if a && b then 1 else 0) → n ≤ (if a then 1 else 0)
fewer true true h = h
fewer true false h = omega arith
fewer false b h = h

module _ {W : Type 0} ⦃f : Floats W⦄ (c : Candidates W) (thresh : W) where
  -- A cluster: it has members, they are candidates, and each is near the representative.
  abbrev pub Sound : Group W → Type 0
  Sound g =
      (g.rep < c.count)
      × (0 < length g.members)
      × (g.size ≡ length g.members)
      × All (λ m. (m < c.count) × (near c thresh g.rep m ≡ true)) g.members

  -- In how many places of the clusters a candidate stands.
  abbrev pub claims : ℕ → List (Group W) → ℕ
  claims i = sum_of (λ g. times i g.members)

  pub record Kept (p : Progress W) : Type 0 where
    pub sound : All Sound p.clusters
    pub apart : (i : ℕ) → claims i p.clusters + (if p.unused i then 1 else 0) ≤ 1

  pub claim-Kept :
      (rep : ℕ) (p : Progress W) (ms : List ℕ)
      → rep < c.count
      → p.unused rep ≡ true
      → All (λ m. (m < c.count) × ((p.unused m && near c thresh rep m) ≡ true)) ms
      → ((i : ℕ) → times i ms ≤ (if p.unused i && near c thresh rep i then 1 else 0))
      → Kept p
      → Kept (claim c thresh rep ms p)
        × (count_below c.count (claim c thresh rep ms p).unused < count_below c.count p.unused)
  unfolding claim new_group
  claim-Kept rep p [] lt on each once k = (
    record { sound = k.sound; apart = λ i. ground (arith, k.apart i) },
    count_below-lt c.count rep p.unused (update p.unused rep false) (λ j h. ground arith) lt on
        (ground arith),
  )
  claim-Kept rep p (m ∷ ms) lt on each once k = (
    record {
      sound = All-append Sound p.clusters _ k.sound (
        (
          lt,
          omega arith,
          refl,
          All-mono _ (λ x. (x < c.count) × (near c thresh rep x ≡ true)) (m ∷ ms)
              (λ x h. (h.0, ground (arith, h.1))) each,
        ),
        tt,
      );
      apart = λ i. apart_claim i (Bool-cases (any (λ x. x == i) (m ∷ ms)));
    },
    count_below-lt c.count m p.unused (clear (m ∷ ms) p.unused) (clear-off (m ∷ ms) p.unused)
        (each.0).0 (ground (arith, (each.0).1)) (clear_in (m ∷ ms) p.unused m (ground arith)),
  )
    where
      apart_claim :
          (i : ℕ)
          → (any (λ x. x == i) (m ∷ ms) ≡ true) ⊎ (any (λ x. x == i) (m ∷ ms) ≡ false)
          → claims i (p.clusters ++ new_group c thresh rep (m ∷ ms) ∷ [])
              + (if clear (m ∷ ms) p.unused i then 1 else 0)
            ≤ 1
      apart_claim i (inl taken) = rw (clear_in (m ∷ ms) p.unused i taken) (
          omega (
            arith,
            sum_of-snoc (λ g. times i g.members) p.clusters (new_group c thresh rep (m ∷ ms)),
            fewer (p.unused i) (near c thresh rep i) (once i),
            k.apart i,
          ))
      apart_claim i (inr free) = rw (clear_out (m ∷ ms) p.unused i free) (
          omega (
            arith,
            sum_of-snoc (λ g. times i g.members) p.clusters (new_group c thresh rep (m ∷ ms)),
            absent i (m ∷ ms) free,
            k.apart i,
          ))
