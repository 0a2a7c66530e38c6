-- ===== src/Prelude/Entries.antt =====
-- The entries of a dict, weighed and kept to a predicate.
use Prim.Native.Nat.{ℕ, ◌+◌, ◌≤◌}
use mathlib.Core.Path.{◌≡◌, refl, sym, ap, ap₂, subst}
use mathlib.Core.Logic.{inl, inr}
use mathlib.Core.List.{[], ◌∷◌}
use mathlib.Core.Option.{some, none}
use native.Mathlib.Omega.{arith}
use face_swap_streamer_versi.Prelude.Tests.{Bool-cases, ◌==◌, ==_iff, if◌then◌else◌, nat_eq}
use face_swap_streamer_versi.Prelude.Lists.{All}
use face_swap_streamer_versi.Prelude.Maps.{Dict, lookup, insert, erase}
use face_swap_streamer_versi.Prelude.Sums.{sum_of, hit}

-- How many entries of a dict have a key.
abbrev pub has_key {ℓ} : {V : Type ℓ} → ℕ → ℕ × V → ℕ
has_key k (j, v) = hit k j

module _ {ℓ} {V : Type ℓ} where
  -- A new key weighs what its entry weighs.
  pub sum_of-insert :
      (w : ℕ × V → ℕ) (k : ℕ) (v : V) (d : Dict ℕ V)
      → sum_of (has_key k) d ≡ 0
      → sum_of w (insert k v d) ≡ sum_of w d + w (k, v)
  sum_of-insert w k v [] new = omega arith
  sum_of-insert w k v ((j, u) ∷ d) new = elim (Bool-cases (j == k)) [
    | inl e ↦ absurd (ground (arith, ==_iff j k, ==_iff k j))
    | inr e ↦ rw e (omega (arith, sum_of-insert w k v d (omega arith)))
  ]

  erase-absent : (k : ℕ) (d : Dict ℕ V) → sum_of (has_key k) d ≡ 0 → erase k d ≡ d
  erase-absent k [] none_such = refl
  erase-absent k ((j, u) ∷ d) none_such = elim (Bool-cases (j == k)) [
    | inl e ↦ absurd (ground (arith, ==_iff j k, ==_iff k j))
    | inr e ↦ rw e (ap (◌∷◌ (j, u)) (erase-absent k d (omega arith)))
  ]

  -- Removing a key that stands once takes away what its entry weighs.
  pub sum_of-erase :
      (w : ℕ × V → ℕ) (k : ℕ) (v : V) (d : Dict ℕ V)
      → lookup k d ≡ some v
      → sum_of (has_key k) d ≤ 1
      → sum_of w d ≡ sum_of w (erase k d) + w (k, v)
  sum_of-erase w k v [] found once = cc
  sum_of-erase w k v ((j, u) ∷ d) found once = elim (Bool-cases (j == k)) [
    | inl e ↦
        let same : (u ≡ v) =
          subst (λ b. (if b then some u else lookup k d) ≡ some v → u ≡ v) (sym e) (λ f. cc)
            found in
        let weighs = ap₂ (λ a b. w (a, b)) ((==_iff j k).0 e) same in
        let gone = erase-absent k d (ground (arith, ==_iff j k, ==_iff k j)) in
        rw e (omega (arith, weighs, ap (sum_of w) gone))
    | inr e ↦ rw e (omega (arith, sum_of-erase w k v d (ground (arith, found, e)) (omega arith)))
  ]

  pub lookup_none→has_key : (k : ℕ) (d : Dict ℕ V) → lookup k d ≡ none → sum_of (has_key k) d ≡ 0
  lookup_none→has_key k [] h = refl
  lookup_none→has_key k ((j, u) ∷ d) h =
      ground (arith, ==_iff j k, ==_iff k j, lookup_none→has_key k d)

  pub All-insert {κ} :
      (P : ℕ × V → Type κ) (k : ℕ) (v : V) (d : Dict ℕ V)
      → P (k, v)
      → All P d
      → All P (insert k v d)
  All-insert P k v [] h hd = (h, tt)
  All-insert P k v ((j, u) ∷ d) h hd = elim (Bool-cases (j == k)) [
    | inl e ↦ rw e (subst (λ i. P (i, v)) (sym ((==_iff j k).0 e)) h, hd.1)
    | inr e ↦ rw e (hd.0, All-insert P k v d h hd.1)
  ]

  pub All-erase {κ} : (P : ℕ × V → Type κ) (k : ℕ) (d : Dict ℕ V) → All P d → All P (erase k d)
  All-erase P k [] hd = tt
  All-erase P k ((j, u) ∷ d) hd = elim (Bool-cases (j == k)) [
    | inl e ↦ rw e (All-erase P k d hd.1)
    | inr e ↦ rw e (hd.0, All-erase P k d hd.1)
  ]

  pub All-lookup {κ} :
      (P : ℕ × V → Type κ) (k : ℕ) (v : V) (d : Dict ℕ V) → lookup k d ≡ some v → All P d → P (k, v)
  All-lookup P k v [] found hd = cc
  All-lookup P k v ((j, u) ∷ d) found hd = elim (Bool-cases (j == k)) [
    | inl e ↦
        subst (λ i. P (i, v)) ((==_iff j k).0 e)
          (subst (λ x. P (j, x)) (ground (arith, found, e)) hd.0)
    | inr e ↦ All-lookup P k v d (ground (arith, found, e)) hd.1
  ]
