-- ===== src/Prelude/Lists.antt =====
-- Lists measured and indexed by native numbers, under the library's names.
use Prim.Native.Nat.{ℕ, zero, suc, ◌+◌, ◌≤◌, min}
use mathlib.Core.Path.{◌≡◌, refl, ap, subst, sym}
use mathlib.Core.Bool.{Bool, true, false, ◌&&◌, ◌||◌}
use mathlib.Core.HLevel.{⊥_prop}
use mathlib.Core.Logic.Or
use mathlib.Core.Logic.{◌⊎◌, inl, inr}
use mathlib.Core.List.{
  List, [], ◌∷◌, ◌++◌, map, Mem, Nodup, mem-cons, mem-append, not-mem-nil, Nodup-append, Nodup-cons,
  Nodup-nil,
}
use mathlib.Core.Option.{Option, none, some}
use native.Mathlib.Omega.{arith}
use face_swap_streamer_versi.Prelude.Tests.{if◌then◌else◌}

module _ {ℓ} {A : Type ℓ} where
  abbrev pub length : List A → ℕ
  length [] = 0
  length (x ∷ xs) = suc (length xs)

  abbrev pub get_elem? : List A → ℕ → Option A
  get_elem? [] i = none
  get_elem? (x ∷ xs) zero = some x
  get_elem? (x ∷ xs) (suc i) = get_elem? xs i

  abbrev pub take : ℕ → List A → List A
  take zero xs = []
  take (suc n) [] = []
  take (suc n) (x ∷ xs) = x ∷ take n xs

  abbrev pub drop : ℕ → List A → List A
  drop zero xs = xs
  drop (suc n) [] = []
  drop (suc n) (x ∷ xs) = drop n xs

  abbrev pub replicate : ℕ → A → List A
  replicate zero a = []
  replicate (suc n) a = a ∷ replicate n a

  -- The items that pass a Boolean test, and whether all or some of them do.
  abbrev pub select : (A → Bool) → List A → List A
  select p [] = []
  select p (x ∷ xs) = if p x then x ∷ select p xs else select p xs

  abbrev pub all : (A → Bool) → List A → Bool
  all p [] = true
  all p (x ∷ xs) = p x && all p xs

  abbrev pub any : (A → Bool) → List A → Bool
  any p [] = false
  any p (x ∷ xs) = p x || any p xs

  -- A predicate at every item, as a tuple.
  abbrev pub All {κ} : (A → Type κ) → List A → Type κ
  All P [] = Unit
  All P (x ∷ xs) = P x × All P xs

  pub length-append : (xs ys : List A) → length (xs ++ ys) ≡ length xs + length ys
  length-append [] ys = omega arith
  length-append (x ∷ xs) ys = omega (arith, length-append xs ys)

  pub length-take : (n : ℕ) (xs : List A) → length (take n xs) ≡ min n (length xs)
  length-take zero xs = omega arith
  length-take (suc n) [] = omega arith
  length-take (suc n) (x ∷ xs) = omega (arith, length-take n xs)

  pub length-replicate : (n : ℕ) (a : A) → length (replicate n a) ≡ n
  length-replicate zero a = refl
  length-replicate (suc n) a = ap suc (length-replicate n a)

  pub take-append-drop : (n : ℕ) (xs : List A) → take n xs ++ drop n xs ≡ xs
  take-append-drop zero xs = refl
  take-append-drop (suc n) [] = refl
  take-append-drop (suc n) (x ∷ xs) = ap (◌∷◌ x) (take-append-drop n xs)

  pub take-all : (n : ℕ) (xs : List A) → length xs ≤ n → take n xs ≡ xs
  take-all zero [] h = refl
  take-all zero (x ∷ xs) h = absurd (omega arith)
  take-all (suc n) [] h = refl
  take-all (suc n) (x ∷ xs) h = ap (◌∷◌ x) (take-all n xs (omega arith))

  pub drop-head :
      (k : ℕ) (xs : List A) {y : A} {ys : List A}
      → drop k xs ≡ y ∷ ys
      → (get_elem? xs k ≡ some y) × (drop (suc k) xs ≡ ys)
  drop-head zero [] h = (cc, cc)
  drop-head zero (x ∷ xs) h = (cc, cc)
  drop-head (suc k) [] h = (cc, cc)
  drop-head (suc k) (x ∷ xs) h = drop-head k xs h

  pub take-next :
      (k : ℕ) (xs : List A) {y : A}
      → get_elem? xs k ≡ some y
      → take (suc k) xs ≡ take k xs ++ y ∷ []
  take-next zero [] h = cc
  take-next zero (x ∷ xs) h = cc
  take-next (suc k) [] h = cc
  take-next (suc k) (x ∷ xs) h = ap (◌∷◌ x) (take-next k xs h)

  pub All-append {κ} : (P : A → Type κ) (xs ys : List A) → All P xs → All P ys → All P (xs ++ ys)
  All-append P [] ys hx hy = hy
  All-append P (x ∷ xs) ys hx hy = (hx.0, All-append P xs ys hx.1 hy)

  pub All-mono {κ μ} :
      (P : A → Type κ) (Q : A → Type μ) (xs : List A) → ((x : A) → P x → Q x) → All P xs → All Q xs
  All-mono P Q [] f h = tt
  All-mono P Q (x ∷ xs) f h = (f x h.0, All-mono P Q xs f h.1)

  pub Nodup-snoc : (xs : List A) (x : A) → Nodup xs → ¬ Mem x xs → Nodup (xs ++ x ∷ [])
  Nodup-snoc xs x h out = Nodup-append.1 (
    h,
    Nodup-cons.1 (not-mem-nil, Nodup-nil),
    λ a m n. Or.elim ⊥_prop (mem-cons.0 n) (λ e. out (subst (λ y. Mem y xs) e m)) not-mem-nil,
  )

  -- An item of `xs ++ [x]` is one of `xs` or `x`, read into a proposition.
  pub mem-snoc_elim {κ} :
      {P : Type κ} (prop : IsProp P) {a x : A} (xs : List A)
      → Mem a (xs ++ x ∷ [])
      → (Mem a xs → P)
      → (a ≡ x → P)
      → P
  mem-snoc_elim prop xs m old new =
      Or.elim prop (mem-append.0 m) old
        (λ n. Or.elim prop (mem-cons.0 n) new (λ z. absurd (not-mem-nil z)))

  pub All→Mem {κ} :
      (P : A → Type κ) (prop : (x : A) → IsProp (P x)) {a : A} (xs : List A)
      → All P xs
      → Mem a xs
      → P a
  All→Mem P prop {a} [] h m = absurd (not-mem-nil m)
  All→Mem P prop {a} (x ∷ xs) h m =
      Or.elim (prop a) (mem-cons.0 m) (λ e. subst P (sym e) h.0) (λ n. All→Mem P prop xs h.1 n)

-- The n numbers from k on.
abbrev pub count_up : ℕ → ℕ → List ℕ
count_up k zero = []
count_up k (suc n) = k ∷ count_up (suc k) n

pub append_nil {ℓ} : {A : Type ℓ} (xs : List A) → xs ++ [] ≡ xs
append_nil [] = refl
append_nil (x ∷ xs) = ap (◌∷◌ x) (append_nil xs)

pub append_assoc {ℓ} : {A : Type ℓ} (xs ys zs : List A) → (xs ++ ys) ++ zs ≡ xs ++ (ys ++ zs)
append_assoc [] ys zs = refl
append_assoc (x ∷ xs) ys zs = ap (◌∷◌ x) (append_assoc xs ys zs)

pub length-map {ℓ κ} :
    {A : Type ℓ} {B : Type κ} (xs : List A) (f : A → B) → length (map f xs) ≡ length xs
length-map [] f = refl
length-map (x ∷ xs) f = ap suc (length-map xs f)

pub map-snoc {ℓ κ} :
    {A : Type ℓ} {B : Type κ} (f : A → B) (xs : List A) (y : A)
    → map f (xs ++ y ∷ []) ≡ map f xs ++ f y ∷ []
map-snoc f [] y = refl
map-snoc f (x ∷ xs) y = ap (◌∷◌ (f x)) (map-snoc f xs y)

pub List-cases {ℓ} :
    {A : Type ℓ} (xs : List A) → (xs ≡ []) ⊎ ((x : A) × (rest : List A) × (xs ≡ x ∷ rest))
List-cases [] = inl refl
List-cases (x ∷ rest) = inr (x, rest, refl)
