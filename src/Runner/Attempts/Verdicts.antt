-- ===== src/Runner/Attempts/Verdicts.antt =====
-- runner.py, _process_with_retry: what it reports of a frame.
use native.Mathlib.Decide.{dec_lt}
use face_swap_streamer_versi.Prelude.{
  ℕ, ◌≤◌, ◌≡◌, ◌≢◌, refl, ap, sym, ◌∙◌, true, false, ltb, lt→ltb, List, [], ◌∷◌, ◌++◌, String,
  length, length-append, take, min, ◌<◌, arith, Bool-cases, inl, inr, ◌⊎◌,
}
use face_swap_streamer_versi.Floats.{Floats, IsIeee, lt_irrefl}
use face_swap_streamer_versi.Quality.{warning, fail, FrameResult, verdict_from_metrics}
use face_swap_streamer_versi.Runner.{Engine, RunConfig, Runner, Picks, real_retry}
use face_swap_streamer_versi.Runner.Attempts.{
  Best, first_try, try_again, retry_queue, report, process_with_retry, is_fail, measure_frame,
  attempt_strategy,
}

module _ {W I K T : Type 0} ⦃f : Floats W⦄ (engine : Engine W I K T) (cfg : RunConfig W) where
  -- What a report says of itself.
  pub record Sound (frame_idx : ℕ) (first : W) (r : FrameResult W) : Type 0 where
    pub index : r.frame_idx ≡ frame_idx
    pub passes : r.verdict ≢ fail
    pub few : r.retry_count ≤ cfg.max_retry
    pub in_order :
        (r.reasons ≡ take r.retry_count real_retry)
        ⊎ (r.reasons ≡ take r.retry_count real_retry ++ "budget_exhausted" ∷ [])
          × (r.verdict ≡ warning)
          × (r.retry_count ≡ min cfg.max_retry 5)
    pub no_worse : f.lt first r.flicker_score ≡ false

  -- The loop after the strategies `tried`.
  record Trying (first : W) (tried : List String) (b : Best W I K T) : Type 0 where
    listed : b.reasons ≡ tried
    counted : b.retries ≡ length tried
    held : f.lt first b.flicker ≡ false
    few : b.retries ≤ cfg.max_retry

  -- The loop at its end.
  record Tried (first : W) (b : Best W I K T) : Type 0 where
    tried : b.reasons ≡ take b.retries real_retry
    held : f.lt first b.flicker ≡ false
    few : b.retries ≤ cfg.max_retry
    spent : is_fail (verdict_from_metrics b.metrics) ≡ true → b.retries ≡ min cfg.max_retry 5

  take-length : (xs ys : List String) → take (length xs) (xs ++ ys) ≡ xs
  take-length [] ys = refl
  take-length (x ∷ xs) ys = ap (◌∷◌ x) (take-length xs ys)

  snoc-append :
      (xs : List String) (y : String) (ys : List String) → (xs ++ y ∷ []) ++ ys ≡ xs ++ y ∷ ys
  snoc-append [] y ys = refl
  snoc-append (x ∷ xs) y ys = ap (◌∷◌ x) (snoc-append xs y ys)

  -- What is below something not above `first` is not above it either.
  falls : IsIeee W → (first a b : W) → f.lt a b ≡ true → f.lt first b ≡ false → f.lt first a ≡ false
  falls ieee first a b down old = ground (
    arith,
    ieee.lt-eq a b,
    ieee.lt-eq first b,
    ieee.lt-eq first a,
    ieee.le_trans first a b,
    ieee.le_trans b first a,
    ieee.refl_of_le first a,
    ieee.refl_of_le a b,
    ieee.le_total first b,
  )

  first_try-Trying :
      IsIeee W
      → (frame : I) (picks : Picks W K) (base_sharpen : W) (r : Runner W I K T)
      → let b = first_try engine cfg frame picks base_sharpen r in Trying b.flicker [] b
  unfolding first_try
  first_try-Trying ieee frame picks base_sharpen r = record {
    listed = refl;
    counted = refl;
    held = lt_irrefl ieee _;
    few = omega arith;
  }

  ge→ltb : (a b : ℕ) → b ≤ a → ltb a b ≡ false
  ge→ltb a b h = ground arith

  module _ (ieee : IsIeee W) (first : W) (frame : I) (base_sharpen : W) where
    try_again-Trying :
        (s : String) (tried : List String) (b : Best W I K T)
        → b.retries < cfg.max_retry
        → Trying first tried b
        → Trying first (tried ++ s ∷ []) (try_again engine cfg s frame base_sharpen b)
    unfolding try_again
    try_again-Trying s tried b room t =
        let a = attempt_strategy engine cfg s frame b.picks base_sharpen b.runner in
        let fs = (measure_frame engine cfg a).0 in
        record {
          listed = ap (λ xs. xs ++ s ∷ []) t.listed;
          counted = omega (arith, t.counted, length-append tried (s ∷ []));
          held = elim (Bool-cases (f.lt fs b.flicker)) [
            | inl down ↦ rw down (falls ieee first fs b.flicker down t.held)
            | inr same ↦ rw same t.held
          ];
          few = omega arith;
        }

    -- Where the loop stops, for either reason.
    Trying→Tried :
        (tried queue : List String) (b : Best W I K T)
        → tried ++ queue ≡ real_retry
        → Trying first tried b
        → (is_fail (verdict_from_metrics b.metrics) ≡ true
            → (cfg.max_retry ≤ b.retries) ⊎ (queue ≡ []))
        → Tried first b
    Trying→Tried tried queue b split t why = record {
      tried =
          t.listed
          ∙ sym (take-length tried queue)
          ∙ ap (take (length tried)) split
          ∙ ap (λ n. take n real_retry) (sym t.counted);
      held = t.held;
      few = t.few;
      spent = λ bad. elim (why bad) [
        | inl full ↦
            omega (arith, full, t.few, t.counted, ap length split, length-append tried queue)
        | inr none_left ↦ omega (
          arith,
          t.few,
          t.counted,
          ap length split,
          length-append tried queue,
          ap length none_left,
        )
      ];
    }

    retry_queue-Tried :
        (tried queue : List String) (b : Best W I K T)
        → tried ++ queue ≡ real_retry
        → Trying first tried b
        → Tried first (retry_queue engine cfg queue frame base_sharpen b)
    unfolding retry_queue
    retry_queue-Tried tried [] b split t = Trying→Tried tried [] b split t (λ _. inr refl)
    retry_queue-Tried tried (s ∷ queue) b split t =
        elim (Bool-cases (is_fail (verdict_from_metrics b.metrics))) [
          | inr fine ↦
              rw fine (Trying→Tried tried (s ∷ queue) b split t (λ bad. absurd (cc (bad, fine))))
          | inl bad ↦ elim (dec_lt b.retries cfg.max_retry) [
            | yes room ↦
                rw (bad, lt→ltb b.retries cfg.max_retry room)
                  (retry_queue-Tried (tried ++ s ∷ []) queue
                    (try_again engine cfg s frame base_sharpen b)
                    (snoc-append tried s queue ∙ split) (try_again-Trying s tried b room t))
            | no full ↦
                rw (bad, ge→ltb b.retries cfg.max_retry (omega (arith, full)))
                  (Trying→Tried tried (s ∷ queue) b split t (λ _. inl (omega (arith, full))))
          ]
        ]

  -- On IEEE floats `_process_with_retry` never reports FAIL and re-renders a frame at most
  -- `max_retry` times; the strategies it lists are the first ones of the queue, in order; a frame
  -- is listed as over budget only with the verdict WARNING and after the whole queue or
  -- `max_retry` strategies; and the flicker of the picture it keeps is not above that of the first.
  pub process_with_retry-Sound :
      IsIeee W
      → (frame : I) (picks : Picks W K) (frame_idx : ℕ) (base_sharpen : W) (r : Runner W I K T)
      → Sound frame_idx
          (first_try engine cfg frame picks base_sharpen r).flicker
          (process_with_retry engine cfg frame picks frame_idx base_sharpen r).0
  unfolding process_with_retry report
  process_with_retry-Sound ieee frame picks frame_idx base_sharpen r =
      let b = first_try engine cfg frame picks base_sharpen r in
      let e = retry_queue engine cfg real_retry frame base_sharpen b in
      let t =
        retry_queue-Tried ieee b.flicker frame base_sharpen [] real_retry b refl
          (first_try-Trying ieee frame picks base_sharpen r) in
      elim (Bool-cases (is_fail (verdict_from_metrics e.metrics))) [
        | inl bad ↦ rw bad (record {
          index = refl;
          passes = λ x. cc;
          few = t.few;
          in_order = inr (ap (λ xs. xs ++ "budget_exhausted" ∷ []) t.tried, refl, t.spent bad);
          no_worse = t.held;
        })
        | inr fine ↦ rw fine (record {
          index = refl;
          passes = λ x. cc (fine, x);
          few = t.few;
          in_order = inl t.tried;
          no_worse = t.held;
        })
      ]
