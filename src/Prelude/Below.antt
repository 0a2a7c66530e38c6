-- ===== src/Prelude/Below.antt =====
-- Flags and other functions of an index, read below a bound: the program's fixed-size lists.
use Prim.Native.Nat.{ℕ, zero, suc, ◌≤◌, ◌<◌}
use mathlib.Core.Path.{◌≡◌, refl}
use mathlib.Core.Bool.{Bool, true, false, ◌&&◌}
use mathlib.Core.Logic.{inl, inr}
use native.Mathlib.Omega.{arith}
use face_swap_streamer_versi.Prelude.Tests.{◌==◌, if◌then◌else◌, Bool-cases}

abbrev pub update {ℓ} : {A : Type ℓ} → (ℕ → A) → ℕ → A → ℕ → A
update f i v j = if j == i then v else f j

-- Python's all(f[0:n]).
abbrev pub all_below : ℕ → (ℕ → Bool) → Bool
all_below zero f = true
all_below (suc n) f = f n && all_below n f

abbrev pub count_below : ℕ → (ℕ → Bool) → ℕ
count_below zero f = 0
count_below (suc n) f = if f n then suc (count_below n f) else count_below n f

pub all_below_get : (n i : ℕ) (f : ℕ → Bool) → all_below n f ≡ true → i < n → f i ≡ true
all_below_get zero i f h lt = absurd (omega arith)
all_below_get (suc n) i f h lt = ground (arith, all_below_get n i f)

pub all_below_intro : (n : ℕ) (f : ℕ → Bool) → ((i : ℕ) → i < n → f i ≡ true) → all_below n f ≡ true
all_below_intro zero f h = refl
all_below_intro (suc n) f h =
    ground (arith, h n (omega arith), all_below_intro n f (λ i lt. h i (omega arith)))

pub all_below_missing :
    (n : ℕ) (f : ℕ → Bool) → all_below n f ≡ false → (j : ℕ) × (j < n) × (f j ≡ false)
all_below_missing zero f h = absurd (ground arith)
all_below_missing (suc n) f h = elim (Bool-cases (f n)) [
  | inl on ↦ let (j, lt, off) = all_below_missing n f (ground arith) in (j, omega arith, off)
  | inr off ↦ (n, omega arith, off)
]

pub count_below-le : (n : ℕ) (f : ℕ → Bool) → count_below n f ≤ n
count_below-le zero f = omega arith
count_below-le (suc n) f = ground (arith, count_below-le n f)

pub all_below→count : (n : ℕ) (f : ℕ → Bool) → all_below n f ≡ true → count_below n f ≡ n
all_below→count zero f h = refl
all_below→count (suc n) f h = ground (arith, all_below→count n f)

pub count→all_below : (n : ℕ) (f : ℕ → Bool) → count_below n f ≡ n → all_below n f ≡ true
count→all_below zero f h = refl
count→all_below (suc n) f h = ground (arith, count→all_below n f, count_below-le n f)

count_below-update_out :
    (n i : ℕ) (f : ℕ → Bool) (v : Bool) → n ≤ i → count_below n (update f i v) ≡ count_below n f
count_below-update_out zero i f v h = refl
count_below-update_out (suc n) i f v h =
    ground (arith, count_below-update_out n i f v (omega arith))

pub count_below-update :
    (n i : ℕ) (f : ℕ → Bool)
    → f i ≡ false
    → i < n
    → count_below n (update f i true) ≡ suc (count_below n f)
count_below-update zero i f h lt = absurd (omega arith)
count_below-update (suc n) i f h lt =
    ground (arith, count_below-update n i f h, count_below-update_out n i f true)
