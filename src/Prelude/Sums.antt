-- ===== src/Prelude/Sums.antt =====
-- Sums of weights over lists: how many items have a property, or what they amount to.
use Prim.Native.Nat.{ℕ, ◌+◌, ◌≤◌}
use mathlib.Core.Path.{◌≡◌, refl}
use mathlib.Core.Logic.{◌≢◌, ◌⊎◌, inl, inr}
use mathlib.Core.List.{List, [], ◌∷◌, ◌++◌}
use native.Mathlib.Omega.{arith}
use face_swap_streamer_versi.Prelude.Tests.{Bool-cases, ◌==◌, if◌then◌else◌, nat_eq}
use face_swap_streamer_versi.Prelude.Lists.{All}

-- 1 for two equal numbers.
abbrev pub hit : ℕ → ℕ → ℕ
hit i j = if i == j then 1 else 0

pub hit_self : (i : ℕ) → hit i i ≡ 1
hit_self i = ground arith

pub hit_le : (i j : ℕ) → hit i j ≤ 1
hit_le i j = ground arith

pub hit_other : (i j : ℕ) → i ≢ j → hit i j ≡ 0
hit_other i j h = ground arith

pub hit_cases : (i j : ℕ) → ((i ≡ j) × (hit i j ≡ 1)) ⊎ ((i ≢ j) × (hit i j ≡ 0))
hit_cases i j = elim (Bool-cases (i == j)) [
  | inl e ↦ inl (ground arith, ground arith)
  | inr e ↦ inr (λ q. ground arith, ground arith)
]

module _ {ℓ} {A : Type ℓ} where
  abbrev pub sum_of : (A → ℕ) → List A → ℕ
  sum_of w [] = 0
  sum_of w (x ∷ xs) = w x + sum_of w xs

  pub sum_of-middle :
      (w : A → ℕ) (xs : List A) (y : A) (ys : List A)
      → sum_of w (xs ++ y ∷ ys) ≡ w y + sum_of w (xs ++ ys)
  sum_of-middle w [] y ys = refl
  sum_of-middle w (x ∷ xs) y ys = omega (arith, sum_of-middle w xs y ys)

  pub sum_of-append : (w : A → ℕ) (xs ys : List A) → sum_of w (xs ++ ys) ≡ sum_of w xs + sum_of w ys
  sum_of-append w [] ys = omega arith
  sum_of-append w (x ∷ xs) ys = omega (arith, sum_of-append w xs ys)

  pub sum_of-snoc : (w : A → ℕ) (xs : List A) (y : A) → sum_of w (xs ++ y ∷ []) ≡ sum_of w xs + w y
  sum_of-snoc w [] y = omega arith
  sum_of-snoc w (x ∷ xs) y = omega (arith, sum_of-snoc w xs y)

  -- A predicate of the items of weight 0, where all the items weigh nothing.
  pub All-weightless {κ μ} :
      (w : A → ℕ) {P : A → Type κ} {Q : A → Type μ}
      → ((x : A) → w x ≡ 0 → P x → Q x)
      → (xs : List A) → sum_of w xs ≡ 0
      → All P xs
      → All Q xs
  All-weightless w f [] light h = tt
  All-weightless w f (x ∷ xs) light h =
      (f x (omega arith) h.0, All-weightless w f xs (omega arith) h.1)

  pub All-middle {κ} :
      (P : A → Type κ) (xs : List A) (y z : A) (ys : List A)
      → P z
      → All P (xs ++ y ∷ ys)
      → All P (xs ++ z ∷ ys)
  All-middle P [] y z ys hz h = (hz, h.1)
  All-middle P (x ∷ xs) y z ys hz h = (h.0, All-middle P xs y z ys hz h.1)

  pub All-at {κ} : (P : A → Type κ) (xs : List A) (y : A) (ys : List A) → All P (xs ++ y ∷ ys) → P y
  All-at P [] y ys h = h.0
  All-at P (x ∷ xs) y ys h = All-at P xs y ys h.1
