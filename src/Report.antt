-- ===== src/Report.antt =====
-- src/face_swap/report_generator.py, compute_kpis, with percentile of metrics.py: the figures of a
-- run, from the lines of its quality log. `sorted`, `statistics.median` and `int` are Python's.
pub mod Reviews
pub mod Samples
use face_swap_streamer_versi.Prelude.{
  ℕ, suc, ◌+◌, ◌-◌, ◌≡◌, Bool, true, false, ltb, ◌==◌, if◌then◌else◌, List, [], ◌∷◌, map, Option,
  none, some, String, any, select, get_elem?, length, min,
}
use face_swap_streamer_versi.Floats.{Floats, nought, one}
use face_swap_streamer_versi.Quality.{FrameResult, QualityVerdict, fail, str_is}
use face_swap_streamer_versi.Pipeline.{Kpis}
use face_swap_streamer_versi.Runner.Attempts.{is_fail}

pub record Python (W : Type 0) : Type 0 where
  pub sorted : List W → List W
  pub median : List W → W
  pub int : W → ℕ

pub record RunKpis (W : Type 0) : Type 0 where
  pub n_frames : ℕ
  pub flicker_score_median : W
  pub flicker_score_p95 : W
  pub flicker_score_mean : W
  pub frames_over_0_25_pct : W
  pub fail_rate : W
  pub manual_review_rate : W
  pub mean_retry_count : W

abbrev pub over_budget : {W : Type 0} → FrameResult W → Bool
over_budget r = any (λ x. str_is x "budget_exhausted") r.reasons

abbrev pub n_review : {W : Type 0} → List (FrameResult W) → ℕ
n_review rows = length (select over_budget rows)

abbrev pub n_fail : {W : Type 0} → List (FrameResult W) → ℕ
n_fail rows = length (select (λ r. is_fail r.verdict) rows)

module _ {W : Type 0} ⦃f : Floats W⦄ (py : Python W) where
  -- A list's item, where the index is in range.
  abbrev at : List W → ℕ → W
  at vals i = elim (get_elem? vals i) [ none ↦ nought | some v ↦ v ]

  pub percentile : List W → W → W
  percentile values pct =
      let vals = py.sorted values in
      let last = length vals - 1 in
      let rank = f.mul (f.div pct (f.dec 100 0)) (f.dec last 0) in
      let lo = py.int rank in
      let hi = min (lo + 1) last in
      let frac = f.sub rank (f.dec lo 0) in
      if length vals == 0
      then nought
      else if length vals == 1
      then at vals 0
      else f.add (f.mul (at vals lo) (f.sub one frac)) (f.mul (at vals hi) frac)

  -- sum(values), from the left
  abbrev sum_from : W → List W → W
  sum_from acc [] = acc
  sum_from acc (v ∷ vs) = sum_from (f.add acc v) vs

  -- A count as a share of another number, 0 where there is nothing.
  abbrev share_of : W → ℕ → W
  share_of part n = if n == 0 then nought else f.div part (f.dec n 0)

  abbrev retries_of : List (FrameResult W) → ℕ
  retries_of [] = 0
  retries_of (r ∷ rows) = r.retry_count + retries_of rows

  -- Every line of the log has a flicker score.
  pub compute_kpis : List (FrameResult W) → RunKpis W
  unfolding percentile
  compute_kpis rows =
      let flickers = map (λ r. r.flicker_score) rows in
      let n = length rows in
      let over_025 = length (select (λ v. f.lt (f.dec 25 2) v) flickers) in
      record {
        n_frames = n;
        flicker_score_median = if n == 0 then nought else py.median flickers;
        flicker_score_p95 = percentile flickers (f.dec 95 0);
        flicker_score_mean = share_of (sum_from nought flickers) n;
        frames_over_0_25_pct = share_of (f.dec over_025 0) n;
        fail_rate = share_of (f.dec (n_fail rows) 0) n;
        manual_review_rate = share_of (f.dec (n_review rows) 0) n;
        mean_retry_count = share_of (f.dec (retries_of rows) 0) n;
      }

  -- What execute returns and `had_manual_review`, as run hands them on.
  pub hand_on : List (FrameResult W) → Bool → Kpis W
  unfolding compute_kpis
  hand_on rows reviewed = record {
    flicker_score_median = some (some (compute_kpis rows).flicker_score_median);
    had_manual_review = reviewed;
  }
