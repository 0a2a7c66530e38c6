-- ===== src/Floats/Fixed.antt =====
-- A concrete number type for tests: signed thousandths, which meet the laws of `IsIeee`.
use face_swap_streamer_versi.Prelude.{
  ℕ, suc, ◌+◌, ◌-◌, ◌*◌, ◌/◌, ◌^◌, Bool, ltb, leb, ◌==◌, if◌then◌else◌, arith,
}
use face_swap_streamer_versi.Floats.{Floats, IsIeee}

-- `negsuc n` is -(n + 1).
pub data ℤ : Type 0 where
  pos : ℕ → ℤ
  negsuc : ℕ → ℤ

abbrev pub pos_part : ℤ → ℕ
pos_part (pos n) = n
pos_part (negsuc n) = 0

abbrev pub neg_part : ℤ → ℕ
neg_part (pos n) = 0
neg_part (negsuc n) = suc n

abbrev pub sub_ℕ : ℕ → ℕ → ℤ
sub_ℕ a b = if leb b a then pos (a - b) else negsuc (b - a - 1)

abbrev le_ℤ : ℤ → ℤ → Bool
le_ℤ a b = leb (pos_part a + neg_part b) (pos_part b + neg_part a)

abbrev lt_ℤ : ℤ → ℤ → Bool
lt_ℤ a b = ltb (pos_part a + neg_part b) (pos_part b + neg_part a)

abbrev eq_ℤ : ℤ → ℤ → Bool
eq_ℤ a b = pos_part a + neg_part b == pos_part b + neg_part a

-- Apply an operation to the magnitudes, with the sign of a product.
abbrev signed : (ℕ → ℕ → ℕ) → ℤ → ℤ → ℤ
signed g a b =
    sub_ℕ (g (pos_part a) (pos_part b) + g (neg_part a) (neg_part b))
      (g (pos_part a) (neg_part b) + g (neg_part a) (pos_part b))

instance abbrev pub fixed_floats : Floats ℤ
fixed_floats = record {
  lt = lt_ℤ;
  le = le_ℤ;
  eq = eq_ℤ;
  add = λ a b. sub_ℕ (pos_part a + pos_part b) (neg_part a + neg_part b);
  sub = λ a b. sub_ℕ (pos_part a + neg_part b) (neg_part a + pos_part b);
  mul = signed (λ a b. a * b / 1000);
  div = signed (λ a b. a * 1000 / b);
  dec = λ m e. pos (m * 1000 / 10 ^ e);
}

pub ℤ-IsIeee : IsIeee ℤ
ℤ-IsIeee = ground arith
