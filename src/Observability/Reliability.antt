-- ===== src/Observability/Reliability.antt =====
-- src/face_swap/observability.py, ReliabilityTracker: the counters behind the error budget, and the
-- check that pipeline.py makes of it.
use face_swap_streamer_versi.Prelude.{
  ℕ, ◌+◌, ◌≡◌, Bool, true, not, ltb, ◌==◌, if◌then◌else◌, List, [], ◌∷◌, length, select, length,
  arith,
}
use face_swap_streamer_versi.Floats.{Floats, IsIeee, nought, one, fmax, fmin}
use face_swap_streamer_versi.Observability.Health.{Health}

pub record ReliabilityTracker (W : Type 0) : Type 0 where
  pub slo_target : W
  pub total : ℕ
  pub succeeded : ℕ
  pub failed : ℕ
  pub manual_review : ℕ
  pub retries : ℕ

-- The arguments of one `record_frame`.
pub record Frame : Type 0 where
  pub success : Bool
  pub manual_review : Bool
  pub retries : ℕ

module _ {W : Type 0} where
  pub record_frame : Frame → ReliabilityTracker W → ReliabilityTracker W
  record_frame e r = record r {
    total = r.total + 1;
    retries = r.retries + e.retries;
    manual_review = if e.manual_review then r.manual_review + 1 else r.manual_review;
    succeeded = if e.success then r.succeeded + 1 else r.succeeded;
    failed = if e.success then r.failed else r.failed + 1;
  }

  pub record_frames : List Frame → ReliabilityTracker W → ReliabilityTracker W
  unfolding record_frame
  record_frames [] r = r
  record_frames (e ∷ es) r = record_frames es (record_frame e r)

  -- ReliabilityTracker(slo_target=...)
  pub new_tracker : W → ReliabilityTracker W
  new_tracker target = record {
    slo_target = target;
    total = 0;
    succeeded = 0;
    failed = 0;
    manual_review = 0;
    retries = 0;
  }

module _ {W : Type 0} ⦃f : Floats W⦄ where
  -- A quotient of two counters.
  pub rate : ℕ → ℕ → W
  rate n total = f.div (f.dec n 0) (f.dec total 0)

  pub success_rate : ReliabilityTracker W → W
  unfolding rate
  success_rate r = if ltb 0 r.total then rate r.succeeded r.total else one

  pub manual_review_rate : ReliabilityTracker W → W
  unfolding rate
  manual_review_rate r = if ltb 0 r.total then rate r.manual_review r.total else nought

  pub error_budget_remaining : ReliabilityTracker W → W
  unfolding rate
  error_budget_remaining r =
      let budget = fmax (f.sub one r.slo_target) (f.dec 1 9) in
      let failure_rate = if ltb 0 r.total then rate r.failed r.total else nought in
      let remaining = f.sub one (f.div failure_rate budget) in fmax nought (fmin one remaining)

  pub slo_met : ReliabilityTracker W → Bool
  unfolding success_rate
  slo_met r = f.le r.slo_target (success_rate r)

  -- pipeline.py, slo_check
  pub slo_check : ReliabilityTracker W → Health
  unfolding slo_met error_budget_remaining
  slo_check r =
      if r.total == 0
      then Health.up
      else if slo_met r
      then Health.up
      else if f.lt nought (error_budget_remaining r)
      then Health.degraded
      else Health.down

-- How many of the frames pass a test.
abbrev pub how_many : (Frame → Bool) → List Frame → ℕ
how_many p es = length (select p es)

module _ {W : Type 0} where
  -- After any frames each counter of the tracker has grown by the number of those frames that it
  -- is about; so successes and failures together have grown by as much as the total.
  pub record_frames-counters :
      (es : List Frame) (r : ReliabilityTracker W)
      → let after = record_frames es r in
        (after.total ≡ r.total + length es)
        × (after.succeeded ≡ r.succeeded + how_many (λ e. e.success) es)
        × (after.failed ≡ r.failed + how_many (λ e. not e.success) es)
        × (after.manual_review ≡ r.manual_review + how_many (λ e. e.manual_review) es)
        × (after.succeeded + after.failed + r.total ≡ r.succeeded + r.failed + after.total)
  unfolding record_frames
  record_frames-counters [] r = ground arith
  record_frames-counters (e ∷ es) r = ground (arith, record_frames-counters es (record_frame e r))

clamp_bounds :
    {W : Type 0} ⦃f : Floats W⦄ (ieee : IsIeee W) (x : W)
    → f.le nought one ≡ true
    → (f.le nought (fmax nought (fmin one x)) ≡ true) × (f.le (fmax nought (fmin one x)) one ≡ true)
clamp_bounds ⦃f⦄ ieee x h = ground (
  arith,
  ieee.lt-eq x one,
  ieee.lt-eq nought x,
  ieee.lt-eq nought one,
  ieee.refl_of_le nought one,
)

-- The remaining error budget lies between zero and one, also when the rates are NaN. Zero is at
-- most one, and the comparisons are those of IEEE 754.
pub error_budget_remaining_bounds :
    {W : Type 0} ⦃f : Floats W⦄ (ieee : IsIeee W) (r : ReliabilityTracker W)
    → f.le nought one ≡ true
    → (f.le nought (error_budget_remaining r) ≡ true) × (f.le (error_budget_remaining r) one ≡ true)
unfolding error_budget_remaining
error_budget_remaining_bounds ieee r h = clamp_bounds ieee _ h
