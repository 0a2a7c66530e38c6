-- ===== src/Config/Fingerprint.antt =====
-- The fingerprint: what it leaves out, and what it keeps.
use face_swap_streamer_versi.Prelude.{
  ◌≡◌, ◌≢◌, ◌⊎◌, inl, inr, refl, ap, sym, ◌∙◌, false, if◌then◌else◌, List, [], ◌∷◌, none, some,
  String, string_eq, arith,
}
use face_swap_streamer_versi.Config.{
  Value, dict, Fields, nil, field, get, put, pop, child, set_nested, at_path, drop_toggles,
  trim_output, processing_fingerprint, config_hash,
}
use face_swap_streamer_versi.Config.Paths.{get-put, get-put_other}

get-pop :
    (k j : String) (fs : Fields) → get j (pop k fs) ≡ (if string_eq.beq k j then none else get j fs)
get-pop k j nil = ground arith
get-pop k j (field i w fs) =
    ground
      (arith, string_eq.beq_iff k j, string_eq.beq_iff i k, string_eq.beq_iff i j, get-pop k j fs)

get-pop_other :
    (k j : String) (fs : Fields) → string_eq.beq k j ≡ false → get j (pop k fs) ≡ get j fs
get-pop_other k j fs off = get-pop k j fs ∙ rw off refl

pop-put_self : (k : String) (v : Value) (fs : Fields) → pop k (put k v fs) ≡ pop k fs
pop-put_self k v nil = ground (arith, string_eq.beq_iff k k)
pop-put_self k v (field i w fs) = ground (arith, string_eq.beq_iff i k, pop-put_self k v fs)

pop-put_other :
    (k j : String) (v : Value) (fs : Fields)
    → string_eq.beq k j ≡ false
    → pop k (put j v fs) ≡ put j v (pop k fs)
pop-put_other k j v nil off = ground (arith, string_eq.beq_iff j k, string_eq.beq_iff k j)
pop-put_other k j v (field i w fs) off = ground (
  arith,
  string_eq.beq_iff i k,
  string_eq.beq_iff i j,
  string_eq.beq_iff k j,
  string_eq.beq_iff j k,
  pop-put_other k j v fs off,
)

put-put : (k : String) (v w : Value) (fs : Fields) → put k w (put k v fs) ≡ put k w fs
put-put k v w nil = ground (arith, string_eq.beq_iff k k)
put-put k v w (field i u fs) = ground (arith, string_eq.beq_iff i k, put-put k v w fs)

-- The presentation toggles of the output section.
pub data Toggle (k : String) : Type 0 where
  preview : k ≡ "generate_side_by_side_preview" → Toggle k
  quality_report : k ≡ "generate_quality_report" → Toggle k
  redact : k ≡ "redact_paths" → Toggle k

drop_toggles-put :
    (k : String) (v : Value) (out : Fields)
    → Toggle k
    → drop_toggles (put k v out) ≡ drop_toggles out
unfolding drop_toggles
drop_toggles-put k v out (preview e) =
    ap (λ d. pop "redact_paths" (pop "generate_quality_report" d))
      (ap (λ j. pop "generate_side_by_side_preview" (put j v out)) e ∙ pop-put_self _ v out)
drop_toggles-put k v out (quality_report e) =
    let rest = pop "generate_side_by_side_preview" out in
    ap (pop "redact_paths") (
      ap (λ j. pop "generate_quality_report" (pop "generate_side_by_side_preview" (put j v out))) e
      ∙ ap (pop "generate_quality_report")
          (pop-put_other "generate_side_by_side_preview" "generate_quality_report" v out refl)
      ∙ pop-put_self "generate_quality_report" v rest)
drop_toggles-put k v out (redact e) =
    let rest = pop "generate_side_by_side_preview" out in
    ap (λ j. drop_toggles (put j v out)) e
    ∙ ap (λ d. pop "redact_paths" (pop "generate_quality_report" d))
        (pop-put_other "generate_side_by_side_preview" "redact_paths" v out refl)
    ∙ ap (pop "redact_paths") (pop-put_other "generate_quality_report" "redact_paths" v rest refl)
    ∙ pop-put_self "redact_paths" v (pop "generate_quality_report" rest)

-- Whatever is set below "input" or "telemetry" does not change the fingerprint.
fingerprint-section :
    (k : String) (v : Value) (dump : Fields)
    → (k ≡ "input") ⊎ (k ≡ "telemetry")
    → processing_fingerprint (put k v dump) ≡ processing_fingerprint dump
unfolding processing_fingerprint
fingerprint-section k v dump (inl e) =
    let same : pop "input" (put k v dump) ≡ pop "input" dump =
      ap (λ j. pop "input" (put j v dump)) e ∙ pop-put_self "input" v dump in
    ap (λ d. trim_output (get "output" (pop "telemetry" d)) (pop "telemetry" d)) same
fingerprint-section k v dump (inr e) =
    let same : pop "telemetry" (pop "input" (put k v dump)) ≡ pop "telemetry" (pop "input" dump) =
      ap (λ j. pop "telemetry" (pop "input" (put j v dump))) e
      ∙ ap (pop "telemetry") (pop-put_other "input" "telemetry" v dump refl)
      ∙ pop-put_self "telemetry" v (pop "input" dump) in
    ap (λ d. trim_output (get "output" d) d) same

abbrev core : Fields → Fields
core dump = pop "telemetry" (pop "input" dump)

core-put : (v : Value) (dump : Fields) → core (put "output" v dump) ≡ put "output" v (core dump)
core-put v dump =
    ap (pop "telemetry") (pop-put_other "input" "output" v dump refl)
    ∙ pop-put_other "telemetry" "output" v (pop "input" dump) refl

get-core :
    (k : String) (dump : Fields)
    → string_eq.beq "input" k ≡ false
    → string_eq.beq "telemetry" k ≡ false
    → get k (core dump) ≡ get k dump
get-core k dump i t =
    get-pop_other "telemetry" k (pop "input" dump) t ∙ get-pop_other "input" k dump i

fingerprint-output :
    (dump out : Fields)
    → get "output" dump ≡ some (dict out)
    → processing_fingerprint dump ≡ put "output" (dict (drop_toggles out)) (core dump)
unfolding processing_fingerprint
fingerprint-output dump out there =
    ap (λ o. trim_output o (core dump)) (get-core "output" dump refl refl ∙ there)

-- A toggle that is set does not change the fingerprint.
fingerprint-Toggle :
    (k : String) (v : Value) (dump out : Fields)
    → Toggle k
    → get "output" dump ≡ some (dict out)
    → processing_fingerprint (put "output" (dict (put k v out)) dump) ≡ processing_fingerprint dump
fingerprint-Toggle k v dump out t there =
    let new = dict (put k v out) in
    fingerprint-output (put "output" new dump) (put k v out) (get-put "output" "output" new dump)
    ∙ ap (λ d. put "output" (dict (drop_toggles (put k v out))) d) (core-put new dump)
    ∙ put-put "output" new (dict (drop_toggles (put k v out))) (core dump)
    ∙ ap (λ d. put "output" (dict d) (core dump)) (drop_toggles-put k v out t)
    ∙ sym (fingerprint-output dump out there)

-- The paths that do not count.
pub data Volatile : List String → Type 0 where
  section : (k : String) (ks : List String) → (k ≡ "input") ⊎ (k ≡ "telemetry") → Volatile (k ∷ ks)
  toggle : (k t : String) (ks : List String) → k ≡ "output" → Toggle t → Volatile (k ∷ t ∷ ks)

set_nested-is_put :
    (k : String) (ks : List String) (v : Value) (raw : Fields)
    → (w : Value) × (set_nested (k ∷ ks) v raw ≡ put k w raw)
unfolding set_nested
set_nested-is_put k [] v raw = (v, refl)
set_nested-is_put k (j ∷ ks) v raw = (dict (set_nested (j ∷ ks) v (child (get k raw))), refl)

fingerprint-Volatile :
    (path : List String) (v : Value) (dump out : Fields)
    → Volatile path
    → get "output" dump ≡ some (dict out)
    → processing_fingerprint (set_nested path v dump) ≡ processing_fingerprint dump
unfolding set_nested
fingerprint-Volatile path v dump out (section k ks e) there =
    let (w, put_there) = set_nested-is_put k ks v dump in
    ap processing_fingerprint put_there ∙ fingerprint-section k w dump e
fingerprint-Volatile path v dump out (toggle k t ks e t_is) there =
    let (w, put_there) = set_nested-is_put t ks v out in
    ap (λ j. processing_fingerprint (set_nested (j ∷ t ∷ ks) v dump)) e
    ∙ ap (λ o. processing_fingerprint (put "output" (dict (set_nested (t ∷ ks) v (child o))) dump))
        there
    ∙ ap (λ d. processing_fingerprint (put "output" (dict d) dump)) put_there
    ∙ fingerprint-Toggle t w dump out t_is there

-- The paths that count: in another section, or in the output section beside the toggles.
pub data Counts : List String → Type 0 where
  elsewhere :
      (k : String) (ks : List String)
      → string_eq.beq "input" k ≡ false
      → string_eq.beq "telemetry" k ≡ false
      → string_eq.beq "output" k ≡ false
      → Counts (k ∷ ks)
  setting :
      (k j : String) (ks : List String)
      → k ≡ "output"
      → string_eq.beq "generate_side_by_side_preview" j ≡ false
      → string_eq.beq "generate_quality_report" j ≡ false
      → string_eq.beq "redact_paths" j ≡ false
      → Counts (k ∷ j ∷ ks)

fingerprint-keeps :
    (path : List String) (dump out : Fields)
    → Counts path
    → get "output" dump ≡ some (dict out)
    → at_path (some (dict (processing_fingerprint dump))) path ≡ at_path (some (dict dump)) path
unfolding drop_toggles
fingerprint-keeps path dump out (elsewhere k ks i t o) there =
    ap (λ d. at_path (get k d) ks) (fingerprint-output dump out there)
    ∙ ap (λ x. at_path x ks)
        (get-put_other "output" k (dict (drop_toggles out)) (core dump) o ∙ get-core k dump i t)
fingerprint-keeps path dump out (setting k j ks e p q r) there =
    ap (λ i. at_path (get i (processing_fingerprint dump)) (j ∷ ks)) e
    ∙ ap (λ d. at_path (get "output" d) (j ∷ ks)) (fingerprint-output dump out there)
    ∙ ap (λ x. at_path x (j ∷ ks)) (get-put "output" "output" (dict (drop_toggles out)) (core dump))
    ∙ ap (λ x. at_path x ks)
        (get-pop_other "redact_paths" j _ r
          ∙ get-pop_other "generate_quality_report" j _ q
          ∙ get-pop_other "generate_side_by_side_preview" j out p)
    ∙ ap (λ x. at_path x (j ∷ ks)) (sym there)
    ∙ ap (λ i. at_path (get i dump) (j ∷ ks)) (sym e)

-- The hash of a configuration with an output section is that of the same one with any value set
-- below "input", below "telemetry" or at one of the three presentation toggles, whatever the hash
-- function is.
pub config_hash-ignores :
    {D : Type 0} (digest : Fields → D) (dump out : Fields) (path : List String) (v : Value)
    → get "output" dump ≡ some (dict out)
    → Volatile path
    → config_hash digest (set_nested path v dump) ≡ config_hash digest dump
unfolding config_hash
config_hash-ignores digest dump out path v there volatile =
    ap digest (fingerprint-Volatile path v dump out volatile there)

-- Two configurations with output sections that differ at a path that counts have different
-- fingerprints, which are what is hashed. These paths are all those in the other sections and
-- those in the output section beside the toggles.
pub processing_fingerprint-tells :
    (dump out dump' out' : Fields) (counted : List String)
    → get "output" dump ≡ some (dict out)
    → get "output" dump' ≡ some (dict out')
    → Counts counted
    → at_path (some (dict dump)) counted ≢ at_path (some (dict dump')) counted
    → processing_fingerprint dump ≢ processing_fingerprint dump'
processing_fingerprint-tells dump out dump' out' counted there there' counts differ e = differ (
    sym (fingerprint-keeps counted dump out counts there)
    ∙ ap (λ d. at_path (some (dict d)) counted) e
    ∙ fingerprint-keeps counted dump' out' counts there')
