-- ===== src/Config/Paths.antt =====
-- Overrides: what stands at a path after them.
use face_swap_streamer_versi.Prelude.{
  ◌≡◌, ◌⊎◌, inl, inr, refl, ap, sym, ◌∙◌, true, false, if◌then◌else◌, List, [], ◌∷◌, Option, some,
  String, string_eq, Option-cases, Bool-cases, All, arith,
}
use face_swap_streamer_versi.Config.{
  Value, scalar, dict, Fields, nil, field, get, put, child, set_nested, at_path, Texts,
  coerce_scalar, override_all, ConfigFile, missing, undecodable, invalid, empty, root, config,
  finish_load, load_config,
}

pub get-put :
    (k j : String) (v : Value) (fs : Fields)
    → get j (put k v fs) ≡ (if string_eq.beq k j then some v else get j fs)
get-put k j v nil = refl
get-put k j v (field i w fs) =
    ground
      (arith, string_eq.beq_iff k j, string_eq.beq_iff i k, string_eq.beq_iff i j, get-put k j v fs)

-- Neither path is a beginning of the other.
abbrev pub Diverge : List String → List String → Type 0
Diverge (k ∷ ks) (j ∷ js) = (string_eq.beq k j ≡ false) ⊎ (k ≡ j) × Diverge ks js
Diverge _ _ = ⊥

Diverge-dec : (ks js : List String) → Diverge ks js ⊎ (¬ Diverge ks js)
Diverge-dec [] js = inr (λ d. d)
Diverge-dec (k ∷ ks) [] = inr (λ d. d)
Diverge-dec (k ∷ ks) (j ∷ js) = elim (Bool-cases (string_eq.beq k j)) [
  | inr off ↦ inl (inl off)
  | inl on ↦ elim (Diverge-dec ks js) [
    | inl far ↦ inl (inr ((string_eq.beq_iff k j).0 on, far))
    | inr near ↦ inr (λ d. elim d [ inl off ↦ cc (on, off) | inr (_, far) ↦ near far ])
  ]
]

same : (k : String) → string_eq.beq k k ≡ true
same k = (string_eq.beq_iff k k).1 refl

get-put_self : (k : String) (v : Value) (fs : Fields) → get k (put k v fs) ≡ some v
get-put_self k v fs = get-put k k v fs ∙ rw (same k) refl

pub get-put_other :
    (k j : String) (v : Value) (fs : Fields)
    → string_eq.beq k j ≡ false
    → get j (put k v fs) ≡ get j fs
get-put_other k j v fs off = get-put k j v fs ∙ rw off refl

-- An override stands at its path.
set_nested-at :
    (k : String) (ks : List String) (v : Value) (raw : Fields)
    → at_path (some (dict (set_nested (k ∷ ks) v raw))) (k ∷ ks) ≡ some v
unfolding set_nested
set_nested-at k [] v raw = get-put_self k v raw
set_nested-at k (j ∷ ks) v raw =
    let inner = dict (set_nested (j ∷ ks) v (child (get k raw))) in
    ap (λ x. at_path x (j ∷ ks)) (get-put_self k inner raw)
    ∙ set_nested-at j ks v (child (get k raw))

-- It changes nothing at a path that diverges from its own.
set_nested-apart :
    (ks js : List String) (v : Value) (raw : Fields)
    → Diverge ks js
    → at_path (some (dict (set_nested ks v raw))) js ≡ at_path (some (dict raw)) js
unfolding set_nested
set_nested-apart [] js v raw d = absurd d
set_nested-apart (k ∷ ks) [] v raw d = absurd d
set_nested-apart (k ∷ []) (j ∷ js) v raw (inl off) =
    ap (λ x. at_path x js) (get-put_other k j v raw off)
set_nested-apart (k ∷ []) (j ∷ js) v raw (inr (e, d)) = absurd d
set_nested-apart (k ∷ i ∷ ks) (j ∷ js) v raw (inl off) =
    let inner = dict (set_nested (i ∷ ks) v (child (get k raw))) in
    ap (λ x. at_path x js) (get-put_other k j inner raw off)
set_nested-apart (k ∷ i ∷ ks) (j ∷ []) v raw (inr (e, d)) = absurd d
set_nested-apart (k ∷ i ∷ ks) (j ∷ h ∷ js) v raw (inr (e, d)) =
    let inner = dict (set_nested (i ∷ ks) v (child (get k raw))) in
    ap (λ x. at_path (get x (put k inner raw)) (h ∷ js)) (sym e)
    ∙ ap (λ x. at_path x (h ∷ js)) (get-put_self k inner raw)
    ∙ set_nested-apart (i ∷ ks) (h ∷ js) v (child (get k raw)) d
    ∙ ap (λ x. at_path (get x raw) (h ∷ js)) e

module _ (py : Texts) where
  -- A path that all the overrides diverge from.
  abbrev pub Clear : List String → List (String × String) → Type 0
  Clear path = All (λ o. Diverge (py.split_dots o.0) path)

  override_all-apart :
      (path : List String) (overrides : List (String × String)) (raw : Fields)
      → Clear path overrides
      → at_path (some (dict (override_all py overrides raw))) path ≡ at_path (some (dict raw)) path
  unfolding override_all
  override_all-apart path [] raw clear = refl
  override_all-apart path ((key, value) ∷ rest) raw clear =
      override_all-apart path rest _ clear.1
      ∙ set_nested-apart (py.split_dots key) path _ raw clear.0

  -- An override is what stands at its path, if those after it diverge from it.
  override_all-at :
      (after : List (String × String)) (key value : String) (raw : Fields)
      → ((k : String) × (ks : List String) × (py.split_dots key ≡ k ∷ ks))
      → Clear (py.split_dots key) after
      → at_path (some (dict (override_all py ((key, value) ∷ after) raw))) (py.split_dots key)
        ≡ some (scalar (coerce_scalar py value))
  unfolding override_all
  override_all-at after key value raw some_key clear =
      override_all-apart (py.split_dots key) after _ clear ∙ at_key (py.split_dots key) some_key raw
    where
      at_key :
          (path : List String)
          → ((k : String) × (ks : List String) × (path ≡ k ∷ ks))
          → (d : Fields)
          → at_path (some (dict (set_nested path (scalar (coerce_scalar py value)) d))) path
            ≡ some (scalar (coerce_scalar py value))
      at_key [] (k, ks, e) d = absurd (cc)
      at_key (j ∷ js) shape d = set_nested-at j js (scalar (coerce_scalar py value)) d

  Clear-dec :
      (path : List String) (overrides : List (String × String))
      → Clear path overrides ⊎ (¬ Clear path overrides)
  Clear-dec path [] = inl tt
  Clear-dec path (o ∷ rest) = elim (Diverge-dec (py.split_dots o.0) path) [
    | inr near ↦ inr (λ c. near c.0)
    | inl far ↦ elim (Clear-dec path rest) [
      | inl clear ↦ inl (far, clear)
      | inr touched ↦ inr (λ c. touched c.1)
    ]
  ]

  -- Each override has its value at its path, or a later one may have replaced it.
  abbrev pub Standing : List (String × String) → Fields → Type 0
  Standing [] doc = Unit
  Standing ((key, value) ∷ rest) doc =
      ((at_path (some (dict doc)) (py.split_dots key) ≡ some (scalar (coerce_scalar py value)))
        ⊎ (¬ Clear (py.split_dots key) rest))
      × Standing rest doc

  override_all-Standing :
      ((key : String) → (k : String) × (ks : List String) × (py.split_dots key ≡ k ∷ ks))
      → (overrides : List (String × String)) (raw : Fields)
      → Standing overrides (override_all py overrides raw)
  unfolding override_all
  override_all-Standing parts [] raw = tt
  override_all-Standing parts ((key, value) ∷ rest) raw = (
    elim (Clear-dec (py.split_dots key) rest) [
      | inl clear ↦ inl (override_all-at rest key value raw (parts key) clear)
      | inr touched ↦ inr touched
    ],
    override_all-Standing parts rest _,
  )

  module _ {C : Type 0} (validate : Fields → Option C) where
    finished :
        (overrides : List (String × String)) (raw : Fields) {c : C}
        → finish_load py validate overrides raw ≡ config c
        → validate (override_all py overrides raw) ≡ some c
    unfolding finish_load
    finished overrides raw h = elim (Option-cases (validate (override_all py overrides raw))) [
      | inl e ↦ absurd (ground (arith, e, h))
      | inr (c', e) ↦ ground (arith, e, h)
    ]

    loaded :
        (file : ConfigFile) (overrides : List (String × String)) {c : C}
        → load_config py validate file overrides ≡ config c
        → (raw : Fields) × ((file ≡ root (dict raw)) ⊎ ((file ≡ empty) × (raw ≡ nil)))
          × (validate (override_all py overrides raw) ≡ some c)
    unfolding load_config
    loaded missing overrides h = absurd (cc)
    loaded undecodable overrides h = absurd (cc)
    loaded invalid overrides h = absurd (cc)
    loaded (root (scalar s)) overrides h = absurd (cc)
    loaded empty overrides h = (nil, inr (refl, refl), finished overrides nil h)
    loaded (root (dict raw)) overrides h = (raw, inl refl, finished overrides raw h)

    -- A configuration that `load_config` returns, with or without overrides, is the validation of
    -- the fields of a file with a mapping, or of none for an empty file, after the overrides, if
    -- str.split gives every key at least one part. There each override has its coerced value at
    -- its path, or a later override has a path that does not diverge from it; and any path has
    -- what the file says, or some override has a path that does not diverge from it.
    pub load_config-Applied :
        (file : ConfigFile) (overrides : List (String × String)) {c : C} (path : List String)
        → ((key : String) → (k : String) × (ks : List String) × (py.split_dots key ≡ k ∷ ks))
        → load_config py validate file overrides ≡ config c
        → (raw : Fields) × ((file ≡ root (dict raw)) ⊎ ((file ≡ empty) × (raw ≡ nil)))
          × (validate (override_all py overrides raw) ≡ some c)
          × Standing overrides (override_all py overrides raw)
          × ((at_path (some (dict (override_all py overrides raw))) path
                ≡ at_path (some (dict raw)) path)
              ⊎ (¬ Clear path overrides))
    load_config-Applied file overrides path parts h =
        let (raw, from, valid) = loaded file overrides h in
        (
          raw,
          from,
          valid,
          override_all-Standing parts overrides raw,
          elim (Clear-dec path overrides) [
            | inl clear ↦ inl (override_all-apart path overrides raw clear)
            | inr touched ↦ inr touched
          ],
        )
