-- ===== src/Config/Samples.antt =====
-- A small configuration file with overrides.
use face_swap_streamer_versi.Prelude.{
  ◌≡◌, ◌≢◌, ◌⊎◌, inl, inr, Bool-cases, List, String, refl, true, if◌then◌else◌, [], ◌∷◌, none, some,
  string_eq,
}
use face_swap_streamer_versi.Config.{
  flag, number, text, scalar, dict, Fields, nil, field, set_nested, at_path, Texts, root, empty,
  load_config, override_all, config_hash, processing_fingerprint,
}
use face_swap_streamer_versi.Config.Paths.{Clear, Standing, load_config-Applied}
use face_swap_streamer_versi.Config.Fingerprint.{
  toggle, redact, elsewhere, config_hash-ignores, processing_fingerprint-tells,
}

abbrev py : Texts
py = record {
  strip_lower = λ s. s;
  parse_int = λ s. if string_eq.beq s "5" then some "5" else none;
  parse_float = λ s. none;
  split_dots = λ key.
      if string_eq.beq key "output.redact_paths" then "output" ∷ "redact_paths" ∷ [] else key ∷ [];
}

abbrev output : Fields
output = field "crf" (scalar (number "16")) nil

abbrev raw : Fields
raw =
    field "project" (dict (field "name" (scalar (text "duet")) nil))
      (field "output" (dict output) nil)

abbrev overrides : List (String × String)
overrides = ("seed", "5") ∷ ("output.redact_paths", "true") ∷ ("seed", "x") ∷ []

abbrev final : Fields
final = override_all py overrides raw

parts : (key : String) → (k : String) × (ks : List String) × (py.split_dots key ≡ k ∷ ks)
parts key = elim (Bool-cases (string_eq.beq key "output.redact_paths")) [
  | inl e ↦ ("output", "redact_paths" ∷ [], rw e refl)
  | inr e ↦ (key, [], rw e refl)
]

load_config-Applied_example :
    (from : Fields) × ((root (dict raw) ≡ root (dict from))
      ⊎ ((root (dict raw) ≡ empty) × (from ≡ nil)))
    × (some (override_all py overrides from) ≡ some final)
    × Standing py overrides (override_all py overrides from)
    × ((at_path (some (dict (override_all py overrides from))) ("project" ∷ "name" ∷ [])
          ≡ at_path (some (dict from)) ("project" ∷ "name" ∷ []))
        ⊎ (¬ Clear py ("project" ∷ "name" ∷ []) overrides))
unfolding load_config
load_config-Applied_example =
    load_config-Applied py some (root (dict raw)) overrides ("project" ∷ "name" ∷ []) parts refl

config_hash-ignores_example :
    config_hash (λ d. d) (set_nested ("output" ∷ "redact_paths" ∷ []) (scalar (flag true)) raw)
    ≡ config_hash (λ d. d) raw
config_hash-ignores_example =
    config_hash-ignores (λ d. d) raw output ("output" ∷ "redact_paths" ∷ []) (scalar (flag true))
      refl (toggle "output" "redact_paths" [] refl (redact refl))

-- The same configuration with audio.
abbrev louder : Fields
louder = field "audio" (scalar (flag true)) raw

processing_fingerprint-tells_example : processing_fingerprint raw ≢ processing_fingerprint louder
processing_fingerprint-tells_example =
    processing_fingerprint-tells raw output louder output ("audio" ∷ []) refl refl
      (elsewhere "audio" [] refl refl refl) (λ e. cc e)
