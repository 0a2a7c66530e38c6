-- ===== src/Floats/Nan.antt =====
-- The numbers of `Fixed` with a NaN, which compares with nothing and which every operation keeps.
use face_swap_streamer_versi.Prelude.{Bool, false, Option, none, some, arith}
use face_swap_streamer_versi.Floats.{Floats, IsIeee}
use face_swap_streamer_versi.Floats.Fixed.{ℤ, fixed_floats}

abbrev pub Nanable : Type 0
Nanable = Option ℤ

abbrev test : (ℤ → ℤ → Bool) → Nanable → Nanable → Bool
test g none b = false
test g (some a) none = false
test g (some a) (some b) = g a b

abbrev compute : (ℤ → ℤ → ℤ) → Nanable → Nanable → Nanable
compute g none b = none
compute g (some a) none = none
compute g (some a) (some b) = some (g a b)

instance abbrev pub nan_floats : Floats Nanable
nan_floats = record {
  lt = test fixed_floats.lt;
  le = test fixed_floats.le;
  eq = test fixed_floats.eq;
  add = compute fixed_floats.add;
  sub = compute fixed_floats.sub;
  mul = compute fixed_floats.mul;
  div = compute fixed_floats.div;
  dec = λ m e. some (fixed_floats.dec m e);
}

pub Nanable-IsIeee : IsIeee Nanable
Nanable-IsIeee = ground arith
