-- ===== src/Quality/Verdicts.antt =====
-- Quality.verdict_from_metrics against a description with no loop.
use face_swap_streamer_versi.Prelude.{
  ◌≡◌, refl, Bool, false, if◌then◌else◌, List, [], ◌∷◌, none, some, string_eq, lookup, any,
  Option-cases, arith, inl, inr,
}
use face_swap_streamer_versi.Floats.{Floats}
use face_swap_streamer_versi.Quality.{
  QualityVerdict, pass, warning, fail, Metrics, Threshold, thresholds, beyond, scan,
  verdict_from_metrics,
}

module _ {W : Type 0} ⦃f : Floats W⦄ (m : Metrics W) where
  -- The metric of the row is there and beyond the row's limit.
  abbrev pub breaks : (Threshold W → W) → Threshold W → Bool
  breaks limit r = elim (lookup r.metric m) [
    | none ↦ false
    | some v ↦ beyond r.direction v (limit r)
  ]

  abbrev pub warn_limit : Threshold W → W
  warn_limit r = r.warn_at

  abbrev pub pass_limit : Threshold W → W
  pass_limit r = r.pass_at

  scan-eq :
      (rows : List (Threshold W)) (worst : QualityVerdict)
      → scan m rows worst ≡ (
          if any (breaks warn_limit) rows
          then fail
          else if any (breaks pass_limit) rows
          then warning
          else worst)
  unfolding scan
  scan-eq [] worst = refl
  scan-eq (r ∷ rows) worst = elim (Option-cases (lookup r.metric m)) [
    | inl absent ↦ ground (arith, absent, scan-eq rows worst)
    | inr (v, here) ↦ ground (arith, here, scan-eq rows worst, scan-eq rows warning)
  ]

-- The verdict is FAIL if some metric that is present lies beyond its warning limit; otherwise it
-- is WARNING if some lies beyond its pass limit; otherwise it is PASS. Metrics that are missing
-- decide nothing.
pub verdict_from_metrics-eq_worst :
    {W : Type 0} ⦃f : Floats W⦄ (m : Metrics W)
    → verdict_from_metrics m ≡ (
        if any (breaks m (warn_limit m)) thresholds
        then fail
        else if any (breaks m (pass_limit m)) thresholds
        then warning
        else pass)
unfolding verdict_from_metrics
verdict_from_metrics-eq_worst m = scan-eq m thresholds pass
