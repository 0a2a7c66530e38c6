-- ===== src/Observability/Health.antt =====
-- src/face_swap/observability.py, HealthRegistry: the aggregate of named checks.
use native.Mathlib.Bridge.{le_prop}
use face_swap_streamer_versi.Prelude.{
  ℕ, ◌≤◌, ◌≡◌, ◌⊎◌, inl, refl, ltb, if◌then◌else◌, [], ◌∷◌, String, Dict, map, Mem, All, All→Mem,
  arith,
}

pub data Health : Type 0 where
  up degraded down : Health

pub record HealthStatus : Type 0 where
  pub status : Health
  pub detail : String

-- What a check does: it returns a status, or raises an exception that reads as the text.
pub data Checked : Type 0 where
  returns : HealthStatus → Checked
  raises : String → Checked

-- _HEALTH_ORDER
pub rank : Health → ℕ
rank Health.up = 0
rank Health.degraded = 1
rank Health.down = 2

-- `try: status = check()`. The text is that of f"check raised: {exc}".
pub outcome : Checked → HealthStatus
outcome (returns s) = s
outcome (raises text) = record { status = Health.down; detail = text }

-- The loop of `run`, from the worst status so far.
pub worst_of : Dict String Checked → Health → Health
unfolding rank outcome
worst_of [] worst = worst
worst_of ((name, c) ∷ checks) worst =
    let status = (outcome c).status in
    worst_of checks (if ltb (rank worst) (rank status) then status else worst)

pub record HealthReport : Type 0 where
  pub status : Health
  pub checks : Dict String HealthStatus

pub run : Dict String Checked → HealthReport
unfolding worst_of outcome
run checks = record {
  status = worst_of checks Health.up;
  checks = map (λ kv. (kv.0, outcome kv.1)) checks;
}

worst_of-rank :
    (checks : Dict String Checked) (worst : Health) → rank worst ≤ rank (worst_of checks worst)
unfolding worst_of
worst_of-rank [] worst = omega arith
worst_of-rank ((name, c) ∷ checks) worst =
    ground (arith, worst_of-rank checks worst, worst_of-rank checks (outcome c).status)

worst_of-All :
    (checks : Dict String Checked) (worst : Health)
    → All (λ kv. rank (outcome kv.1).status ≤ rank (worst_of checks worst)) checks
unfolding worst_of
worst_of-All [] worst = tt
worst_of-All ((name, c) ∷ checks) worst =
    let status = (outcome c).status in
    let worst' = if ltb (rank worst) (rank status) then status else worst in
    (ground (arith, worst_of-rank checks worst'), worst_of-All checks worst')

rank-top : (h : Health) → 2 ≤ rank h → h ≡ Health.down
unfolding rank
rank-top Health.up h = absurd (omega arith)
rank-top Health.degraded h = absurd (omega arith)
rank-top Health.down h = refl

-- The status of some check.
abbrev pub Shown : Health → Dict String Checked → Type 0
Shown h [] = ⊥
Shown h ((name, c) ∷ checks) = (h ≡ (outcome c).status) ⊎ Shown h checks

worst_of-Shown :
    (checks : Dict String Checked) (worst : Health)
    → (worst_of checks worst ≡ worst) ⊎ Shown (worst_of checks worst) checks
unfolding worst_of
worst_of-Shown [] worst = inl refl
worst_of-Shown ((name, c) ∷ checks) worst =
    ground (arith, worst_of-Shown checks worst, worst_of-Shown checks (outcome c).status)

-- The aggregate is the worst of the statuses: none of them ranks above it, and it is UP or the
-- status of some check. A check that raises counts as DOWN, so then the aggregate is DOWN.
pub run-worst :
    (checks : Dict String Checked)
    → All (λ kv. rank (outcome kv.1).status ≤ rank (run checks).status) checks
      × (((run checks).status ≡ Health.up) ⊎ Shown (run checks).status checks)
      × ((name text : String) → Mem (name, raises text) checks → (run checks).status ≡ Health.down)
unfolding run outcome rank
run-worst checks = (
  worst_of-All checks Health.up,
  worst_of-Shown checks Health.up,
  λ name text m. rank-top _ (
      All→Mem (λ kv. rank (outcome kv.1).status ≤ _) (λ kv. le_prop) checks
        (worst_of-All checks Health.up) m),
)
