-- ===== src/Config.antt =====
-- src/face_swap/config.py: dotted overrides, the loading of a configuration and its fingerprint. The
-- YAML parser, pydantic's validation, the parsers of numbers and the hash are parameters. A document
-- is a tree: a YAML alias, by which two entries share one dict, is not modelled.
pub mod Paths
pub mod Fingerprint
pub mod Samples
use face_swap_streamer_versi.Prelude.{
  ℕ, Bool, true, false, ◌||◌, if◌then◌else◌, List, [], ◌∷◌, Option, none, some, String, Eq,
  string_eq,
}

-- A scalar as `--set` and YAML give it; `other` is what else YAML has, such as lists and dates.
pub data Scalar : Type 0 where
  null : Scalar
  flag : Bool → Scalar
  number : (text : String) → Scalar  -- an int or a float, by its canonical text
  text : String → Scalar
  other : String → Scalar

mutual
  pub data Value : Type 0 where
    scalar : Scalar → Value
    dict : Fields → Value

  pub data Fields : Type 0 where
    nil : Fields
    field : String → Value → Fields → Fields

-- d.get(k)
abbrev pub get : String → Fields → Option Value
get k nil = none
get k (field j v fs) = if string_eq.beq j k then some v else get k fs

-- d[k] = v
abbrev pub put : String → Value → Fields → Fields
put k v nil = field k v nil
put k v (field j w fs) = if string_eq.beq j k then field j v fs else field j w (put k v fs)

-- d.pop(k, None)
abbrev pub pop : String → Fields → Fields
pop k nil = nil
pop k (field j v fs) = if string_eq.beq j k then pop k fs else field j v (pop k fs)

-- nxt, or {} where it is no dict.
abbrev pub child : Option Value → Fields
child none = nil
child (some (scalar s)) = nil
child (some (dict fs)) = fs

-- `_set_nested`; the keys of a call are never empty.
pub set_nested : List String → Value → Fields → Fields
set_nested [] v raw = raw
set_nested (k ∷ []) v raw = put k v raw
set_nested (k ∷ j ∷ ks) v raw = put k (dict (set_nested (j ∷ ks) v (child (get k raw)))) raw

-- The value at a path.
abbrev pub at_path : Option Value → List String → Option Value
at_path v [] = v
at_path v (k ∷ ks) = at_path (get k (child v)) ks

-- What Python does with a text.
pub record Texts : Type 0 where
  pub strip_lower : String → String
  pub parse_int : String → Option String
  pub parse_float : String → Option String
  pub split_dots : String → List String

module _ (py : Texts) where
  pub coerce_scalar : String → Scalar
  coerce_scalar value =
      let lowered = py.strip_lower value in
      if string_eq.beq lowered "true" || string_eq.beq lowered "false"
      then flag (string_eq.beq lowered "true")
      else if string_eq.beq lowered "null" || string_eq.beq lowered "none"
      then null
      else elim (py.parse_int value) [
        | some n ↦ number n
        | none ↦ elim (py.parse_float value) [ some x ↦ number x | none ↦ text value ]
      ]

  -- The loop over the overrides.
  pub override_all : List (String × String) → Fields → Fields
  unfolding set_nested coerce_scalar
  override_all [] raw = raw
  override_all ((key, value) ∷ rest) raw =
      override_all rest (set_nested (py.split_dots key) (scalar (coerce_scalar value)) raw)

-- The file, as path.is_file, read_text and yaml.safe_load find it.
pub data ConfigFile : Type 0 where
  missing : ConfigFile
  undecodable : ConfigFile  -- no UTF-8
  invalid : ConfigFile  -- yaml.YAMLError
  empty : ConfigFile  -- a document that is falsy
  root : Value → ConfigFile

pub data Loaded (C : Type 0) : Type 0 where
  config : C → Loaded C
  config_error : Loaded C
  unicode_error : Loaded C  -- UnicodeDecodeError, which is not caught

module _ {C : Type 0} (py : Texts) (validate : Fields → Option C) where
  -- From the mapping on.
  pub finish_load : List (String × String) → Fields → Loaded C
  unfolding override_all
  finish_load overrides raw = elim (validate (override_all py overrides raw)) [
    | none ↦ config_error
    | some c ↦ config c
  ]

  pub load_config : ConfigFile → List (String × String) → Loaded C
  unfolding finish_load
  load_config missing overrides = config_error
  load_config undecodable overrides = unicode_error
  load_config invalid overrides = config_error
  load_config empty overrides = finish_load overrides nil
  load_config (root (scalar s)) overrides = config_error
  load_config (root (dict raw)) overrides = finish_load overrides raw

-- The three keys of "output" that are presentation only.
pub drop_toggles : Fields → Fields
drop_toggles out =
    pop "redact_paths" (pop "generate_quality_report" (pop "generate_side_by_side_preview" out))

-- The output dict is changed in place.
pub trim_output : Option Value → Fields → Fields
unfolding drop_toggles
trim_output (some (dict out)) data' = put "output" (dict (drop_toggles out)) data'
trim_output (some (scalar s)) data' = data'
trim_output none data' = data'

-- `processing_fingerprint`, on model_dump's dict.
pub processing_fingerprint : Fields → Fields
unfolding trim_output
processing_fingerprint dump =
    let rest = pop "telemetry" (pop "input" dump) in trim_output (get "output" rest) rest

-- `digest` is the sha256 of the canonical JSON text, a value of a type `D`.
pub config_hash : {D : Type 0} → (Fields → D) → Fields → D
unfolding processing_fingerprint
config_hash digest dump = digest (processing_fingerprint dump)
