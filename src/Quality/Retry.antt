-- ===== src/Quality/Retry.antt =====
-- Quality.retry and evaluate_with_retry: how the queue ends, and what its result tells.
use face_swap_streamer_versi.Prelude.{
  ℕ, zero, suc, ◌+◌, ◌≤◌, ◌<◌, min, ◌≡◌, refl, ap, sym, ◌∙◌, ◌≢◌, ◌⊎◌, inl, inr, true, List, [],
  ◌∷◌, ◌++◌, map, some, is_some, String, length, take, drop, take-append-drop, length-append,
  length-take, arith, Ends, Ends-mono, length-map, All, Option-cases,
}
use mathlib.Core.List.{map-append, append_assoc}
use face_swap_streamer_versi.Floats.{Floats}
use face_swap_streamer_versi.Quality.{
  QualityVerdict, pass, warning, fail, Metrics, FrameContext, FrameResult, retry_strategies,
  verdict_from_metrics, apply_strategy, evaluate, conclude, retry_from, retry, evaluate_with_retry,
}

verdict_cases : (v : QualityVerdict) → (v ≡ pass) ⊎ (v ≡ warning) ⊎ (v ≡ fail)
verdict_cases pass = inl refl
verdict_cases warning = inr (inl refl)
verdict_cases fail = inr (inr refl)

module _ {W : Type 0} ⦃f : Floats W⦄ (metrics_fn : FrameContext W → Metrics W) where
  abbrev tried : List (String × FrameResult W) → List String
  tried = map (λ t. t.0)

  -- What a result says of a run of the queue `done ++ queue`.
  pub record Report (ctx : FrameContext W) (done queue : List String) (r : FrameResult W)
      : Type 0 where
    pub settled : r.verdict ≢ fail
    pub counted : r.retry_count ≡ length r.retry_strategies
    pub rest : List String
    pub in_order : done ++ queue ≡ r.retry_strategies ++ rest
    -- A PASS was observed, on the context that the last strategy gave.
    pub honest :
        r.verdict ≡ pass
        → (s : String) × (c : FrameContext W) × (apply_strategy s ctx ≡ some c)
          × (verdict_from_metrics (metrics_fn c) ≡ pass)

  evaluate-verdict :
      (i : ℕ) (c : FrameContext W)
      → (evaluate metrics_fn i c).verdict ≡ verdict_from_metrics (metrics_fn c)
  unfolding evaluate
  evaluate-verdict i c = refl

  conclude-Report :
      (i : ℕ) (ctx : FrameContext W) (a : String × FrameResult W)
      (rest : List (String × FrameResult W))
      → Report ctx (tried (a ∷ rest)) [] (conclude metrics_fn i ctx (a ∷ rest))
  unfolding conclude
  conclude-Report i ctx a rest = record {
    settled = λ e. cc;
    counted = ap suc (sym (length-map rest (λ t. t.0)));
    rest = [];
    in_order = refl;
    honest = λ e. absurd (cc);
  }

  retry_from-Report :
      (i : ℕ) (ctx : FrameContext W) (queue : List String)
      (attempts : List (String × FrameResult W))
      → 0 < length attempts + length queue
      → All (λ s. is_some (apply_strategy s ctx) ≡ true) queue
      → Ends (Report ctx (tried attempts) queue) (retry_from metrics_fn i ctx queue attempts)
  unfolding retry_from
  retry_from-Report i ctx [] [] h k = absurd (omega arith)
  retry_from-Report i ctx [] (a ∷ rest) h k = conclude-Report i ctx a rest
  retry_from-Report i ctx (s ∷ queue) attempts h k = elim (Option-cases (apply_strategy s ctx)) [
    | inl absent ↦ absurd (ground (arith, k.0))
    | inr (c, here) ↦
        let result = evaluate metrics_fn i c in
        let attempts' = attempts ++ (s, result) ∷ [] in
        let moved : tried attempts' ++ queue ≡ tried attempts ++ s ∷ queue =
          simp (map-append, append_assoc) in
        let more =
          Ends-mono (Report ctx (tried attempts') queue) (Report ctx (tried attempts) (s ∷ queue)) _
            (λ r v. record {
              settled = v.settled;
              counted = v.counted;
              rest = v.rest;
              in_order = sym moved ∙ v.in_order;
              honest = v.honest;
            })
            (retry_from-Report i ctx queue attempts'
              (omega (arith, length-append attempts ((s, result) ∷ []))) k.1) in
        elim (verdict_cases result.verdict) [
          | inl good ↦
              rw (here, retry_from, good)
                (record {
                  settled = λ e. cc (good, e);
                  counted = sym (length-map attempts' (λ t. t.0));
                  rest = queue;
                  in_order = sym moved;
                  honest = λ e. (s, c, here, sym (evaluate-verdict i c) ∙ good);
                })
          | inr (inl soso) ↦ rw (here, retry_from, soso) more
          | inr (inr bad) ↦ rw (here, retry_from, bad) more
        ]
  ]

  strategies_known :
      (ctx : FrameContext W) → All (λ s. is_some (apply_strategy s ctx) ≡ true) retry_strategies
  unfolding apply_strategy
  strategies_known ctx = ground arith

-- What a result of `evaluate_with_retry` tells of the run.
pub record Sound {W : Type 0} ⦃f : Floats W⦄ (metrics_fn : FrameContext W → Metrics W)
    (ctx : FrameContext W) (budget : ℕ) (r : FrameResult W) : Type 0 where
  pub settled : r.verdict ≢ fail
  pub counted : r.retry_count ≡ length r.retry_strategies
  pub bounded : r.retry_count ≤ min budget (length retry_strategies)
  pub rest : List String
  pub in_order : retry_strategies ≡ r.retry_strategies ++ rest
  pub honest :
      r.verdict ≡ pass
      → (verdict_from_metrics (metrics_fn ctx) ≡ pass)
        ⊎ ((s : String) × (c : FrameContext W) × (apply_strategy s ctx ≡ some c)
            × (verdict_from_metrics (metrics_fn c) ≡ pass))

module _ {W : Type 0} ⦃f : Floats W⦄ (metrics_fn : FrameContext W → Metrics W) where
  All-take :
      (ctx : FrameContext W) (n : ℕ) (queue : List String)
      → All (λ s. is_some (apply_strategy s ctx) ≡ true) queue
      → All (λ s. is_some (apply_strategy s ctx) ≡ true) (take n queue)
  All-take ctx zero queue h = tt
  All-take ctx (suc n) [] h = tt
  All-take ctx (suc n) (s ∷ queue) h = (h.0, All-take ctx n queue h.1)

  Report→Sound :
      (ctx : FrameContext W) (budget : ℕ) (r : FrameResult W)
      → Report metrics_fn ctx [] (take budget retry_strategies) r
      → Sound metrics_fn ctx budget r
  Report→Sound ctx budget r v = record {
    settled = v.settled;
    counted = v.counted;
    bounded = omega (
      arith,
      v.counted,
      ap length v.in_order,
      length-append r.retry_strategies v.rest,
      length-take budget retry_strategies,
    );
    rest = v.rest ++ drop budget retry_strategies;
    in_order =
        sym (take-append-drop budget retry_strategies)
        ∙ ap (λ l. l ++ drop budget retry_strategies) v.in_order
        ∙ append_assoc r.retry_strategies v.rest (drop budget retry_strategies);
    honest = λ e. inr (v.honest e);
  }

  first_try-Sound :
      (i : ℕ) (ctx : FrameContext W) (budget : ℕ)
      → (evaluate metrics_fn i ctx).verdict ≢ fail
      → Sound metrics_fn ctx budget (evaluate metrics_fn i ctx)
  unfolding evaluate
  first_try-Sound i ctx budget settled = record {
    settled = settled;
    counted = refl;
    bounded = omega arith;
    rest = retry_strategies;
    in_order = refl;
    honest = λ e. inl e;
  }

  -- On a budget of at least 1, `evaluate_with_retry` always returns a result (it never raises), its
  -- verdict is not FAIL, it counts exactly the strategies that it lists, these are the first ones
  -- of the queue in order and no more than the budget, and a verdict of PASS was measured, on the
  -- given context or on that which some strategy makes of it.
  pub evaluate_with_retry-Sound :
      (i : ℕ) (ctx : FrameContext W) (max_retry : ℕ)
      → 0 < max_retry
      → Ends (Sound metrics_fn ctx max_retry) (evaluate_with_retry metrics_fn i ctx max_retry)
  unfolding evaluate_with_retry retry
  evaluate_with_retry-Sound i ctx max_retry pos =
      elim (verdict_cases (evaluate metrics_fn i ctx).verdict) [
        | inl good ↦
            rw (good, evaluate_with_retry) (first_try-Sound i ctx max_retry (λ e. cc (good, e)))
        | inr (inl soso) ↦
            rw (soso, evaluate_with_retry) (first_try-Sound i ctx max_retry (λ e. cc (soso, e)))
        | inr (inr bad) ↦
            rw (bad, evaluate_with_retry)
              (Ends-mono (Report metrics_fn ctx [] (take max_retry retry_strategies)) _ _
                (λ r v. Report→Sound ctx max_retry r v)
                (retry_from-Report metrics_fn i ctx (take max_retry retry_strategies) []
                  (omega (arith, length-take max_retry retry_strategies))
                  (All-take ctx max_retry retry_strategies (strategies_known metrics_fn ctx))))
      ]
