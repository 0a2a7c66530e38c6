-- ===== src/Pipeline/Codes.antt =====
-- run_cmd: the code of the process.
use face_swap_streamer_versi.Prelude.{
  ◌≡◌, ◌≢◌, ◌↔◌, refl, Bool, true, false, Option, none, some, arith,
}
use face_swap_streamer_versi.Floats.{Floats, nought}
use face_swap_streamer_versi.Pipeline.{
  to_ℕ, FaceSwapError, exit_code, Kpis, Ending, returns, raises, keyboard, crashes,
  exit_code_from_kpis, settle, run_written, run, run_cmd,
}

-- The KPI that decides: a missing median counts as zero, and a null one as no obstacle.
abbrev pub too_much : {W : Type 0} ⦃f : Floats W⦄ → Option (Option W) → Bool
too_much ⦃f⦄ none = f.le (f.dec 8 2) nought
too_much ⦃f⦄ (some none) = false
too_much ⦃f⦄ (some (some m)) = f.le (f.dec 8 2) m

exit_code-ne : (e : FaceSwapError) → to_ℕ (exit_code e) ≢ 0
unfolding exit_code to_ℕ
exit_code-ne e = ground arith

kpis_ok :
    {W : Type 0} ⦃f : Floats W⦄ (k : Kpis W)
    → (to_ℕ (exit_code_from_kpis k) ≡ 0)
      ↔ ((k.had_manual_review ≡ false) × (too_much k.flicker_score_median ≡ false))
unfolding exit_code_from_kpis to_ℕ
kpis_ok ⦃f⦄ k = ground arith

-- The process ends with 0 exactly when the run has a video, nothing before the body of its `try`
-- fails, the body returns, nothing needs manual review, and the median flicker score is null or
-- less than 0.08, a missing one being zero.
pub run_cmd_ok_iff :
    {W : Type 0} ⦃f : Floats W⦄ (has_video : Bool) (prepare announce : Ending (Unit {0}))
    (body : Ending (Kpis W))
    → ((run_cmd has_video prepare announce body).1 ≡ 0) ↔ (
        (has_video ≡ true)
        × (prepare ≡ returns tt)
        × (announce ≡ returns tt)
        × ((k : Kpis W) × (body ≡ returns k)
            × (k.had_manual_review ≡ false)
            × (too_much k.flicker_score_median ≡ false)))
unfolding run_cmd run run_written settle exit_code to_ℕ
run_cmd_ok_iff false p a e = (λ h. absurd (omega (arith, h)), λ h. absurd (cc (h.0)))
run_cmd_ok_iff true (raises x) a e = (λ h. absurd (exit_code-ne x h), λ h. absurd (cc (h.1)))
run_cmd_ok_iff true keyboard a e = (λ h. absurd (omega (arith, h)), λ h. absurd (cc (h.1)))
run_cmd_ok_iff true crashes a e = (λ h. absurd (omega (arith, h)), λ h. absurd (cc (h.1)))
run_cmd_ok_iff true (returns _) (raises x) e =
    (λ h. absurd (exit_code-ne x h), λ h. absurd (cc (h.2)))
run_cmd_ok_iff true (returns _) keyboard e =
    (λ h. absurd (omega (arith, h)), λ h. absurd (cc (h.2)))
run_cmd_ok_iff true (returns _) crashes e = (λ h. absurd (omega (arith, h)), λ h. absurd (cc (h.2)))
run_cmd_ok_iff true (returns _) (returns _) (returns k) = (
  λ h. (refl, refl, refl, (k, refl, ((kpis_ok k).0 h).0, ((kpis_ok k).0 h).1)),
  λ h. let same : k ≡ h.3.0 = cc (h.3.1) in (kpis_ok k).1 (rw same (h.3.2, h.3.3)),
)
run_cmd_ok_iff true (returns _) (returns _) (raises e) =
    (λ h. absurd (exit_code-ne e h), λ h. absurd (cc (h.3.1)))
run_cmd_ok_iff true (returns _) (returns _) keyboard =
    (λ h. absurd (omega (arith, h)), λ h. absurd (cc (h.3.1)))
run_cmd_ok_iff true (returns _) (returns _) crashes =
    (λ h. absurd (omega (arith, h)), λ h. absurd (cc (h.3.1)))
