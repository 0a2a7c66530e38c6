-- ===== src/Floats.antt =====
-- The floating-point numbers of the program. antt has none, so a module that computes with floats
-- takes their type and operations as an instance. `IsIeee` holds what IEEE 754 says of the
-- comparisons, NaN included: NaN is the value that is not `<=` itself.
pub mod Fixed
pub mod Nan
use face_swap_streamer_versi.Prelude.{
  ℕ, ◌≡◌, ◌⊎◌, Bool, true, false, not, ◌&&◌, if◌then◌else◌, arith,
}

pub record Floats {ℓ} (W : Type ℓ) : Type ℓ where
  pub lt : W → W → Bool
  pub le : W → W → Bool
  pub eq : W → W → Bool
  pub add : W → W → W
  pub sub : W → W → W
  pub mul : W → W → W
  pub div : W → W → W
  -- The literal m / 10 ^ e: 0.05 is `dec 5 2`.
  pub dec : ℕ → ℕ → W

module _ {ℓ} {W : Type ℓ} ⦃f : Floats W⦄ where
  abbrev pub nought : W
  nought = f.dec 0 0

  abbrev pub one : W
  one = f.dec 1 0

  -- Python's max and min keep the first argument unless the second is strictly beyond it.
  abbrev pub fmax : W → W → W
  fmax a b = if f.lt a b then b else a

  abbrev pub fmin : W → W → W
  fmin a b = if f.lt b a then b else a

infix 4 ◌≼◌
abbrev pub ◌≼◌ {ℓ} : {W : Type ℓ} ⦃f : Floats W⦄ → W → W → Type 0
◌≼◌ ⦃f⦄ x y = f.le x y ≡ true

pub record IsIeee {ℓ} (W : Type ℓ) ⦃f : Floats W⦄ : Type ℓ where
  pub lt-eq : (a b : W) → f.lt a b ≡ (f.le a b && not (f.le b a))
  pub le_trans : (a b c : W) → a ≼ b → b ≼ c → a ≼ c
  pub refl_of_le : (a b : W) → a ≼ b → (a ≼ a) × (b ≼ b)
  pub le_total : (a b : W) → a ≼ a → b ≼ b → (a ≼ b) ⊎ (b ≼ a)

-- What is not above a value is not above a greater one.
pub lt-rises {ℓ} :
    {W : Type ℓ} ⦃f : Floats W⦄ (ieee : IsIeee W) (a b p : W)
    → f.lt a b ≡ true
    → f.lt a p ≡ false
    → f.lt b p ≡ false
lt-rises ieee a b p up old = ground (
  arith,
  ieee.lt-eq a b,
  ieee.lt-eq a p,
  ieee.lt-eq b p,
  ieee.le_trans a b p,
  ieee.le_trans p a b,
  ieee.refl_of_le b p,
  ieee.refl_of_le a b,
  ieee.le_total a p,
)

pub lt_irrefl {ℓ} : {W : Type ℓ} ⦃f : Floats W⦄ (ieee : IsIeee W) (a : W) → f.lt a a ≡ false
lt_irrefl ieee a = ground (arith, ieee.lt-eq a a)
