-- ===== src/Runner/Frames/Log.antt =====
-- runner.py: what the frame loop leaves in quality.jsonl and when it writes a checkpoint.
use face_swap_streamer_versi.Prelude.{
  length-map, ℕ, zero, suc, ◌-◌, ◌%◌, ◌≤◌, ◌<◌, ◌≡◌, refl, ap, ap₂, sym, ◌∙◌, Bool, true, false,
  ltb, lt→ltb, ◌==◌, if◌then◌else◌, List, [], ◌∷◌, ◌++◌, length, map, map-snoc, append_nil,
  append_assoc, select, take, drop, count_up, arith, Bool-cases, List-cases, inl, inr, length-take,
}
use face_swap_streamer_versi.Floats.{Floats}
use face_swap_streamer_versi.Quality.{FrameResult}
use face_swap_streamer_versi.Observability.Metrics.{gauge, gauge-inc, gauge-observe}
use face_swap_streamer_versi.Runner.{Mark, Engine, RunConfig, Runner, detect_with_fallback}
use face_swap_streamer_versi.Runner.Attempts.{process_with_retry}
use face_swap_streamer_versi.Runner.Attempts.Untouched.{
  SameLog, process_with_retry_same, process_with_retry-index,
}
use face_swap_streamer_versi.Runner.Frames.{
  to_json_obj, log_frame, checkpoint, base_sharpen, find_picks, do_frame, frame_loop,
  execute_frames,
}

module _ {W I K T : Type 0} ⦃f : Floats W⦄ (engine : Engine W I K T) (cfg : RunConfig W) where
  -- The frames of a log, by their index.
  abbrev pub logged : Runner W I K T → List ℕ
  logged r = map (λ x. x.frame_idx) r.quality

  abbrev pub due : ℕ → Bool
  due j = j % cfg.checkpoint_every == 0

  pub find_picks_same :
      (frame : I) (frame_idx : ℕ) (r : Runner W I K T)
      → SameLog (find_picks engine cfg frame frame_idx r).1 r
  unfolding find_picks
  find_picks_same frame frame_idx r = elim (List-cases (detect_with_fallback engine cfg frame r)) [
    | inl e ↦ rw (e, find_picks) (refl, refl, refl, refl)
    | inr (face, more, e) ↦ rw (e, find_picks) (refl, refl, refl, refl)
  ]

  -- The checkpoint that goes on at frame `j`, with a flicker of `mean`.
  abbrev pub mark : W → ℕ → Mark W
  mark mean j = record {
    last_completed_frame = j - 1;
    next_frame_to_process = j;
    flicker_mean = mean;
  }

  abbrev pub flicker_gauge : Runner W I K T → W
  flicker_gauge r = gauge "flicker_score" r.metrics

  -- What a turn adds to a runner.
  abbrev Added : Runner W I K T → Runner W I K T → List ℕ → List ℕ → Type 0
  Added r t lines marks =
      (logged t ≡ logged r ++ lines)
      × (t.checkpoints ≡ r.checkpoints ++ map (mark (flicker_gauge r)) marks)
      × (flicker_gauge t ≡ flicker_gauge r)

  -- The end of a turn, with a checkpoint or without.
  turn_end :
      (b : Bool) (frame_idx : ℕ) (r : Runner W I K T)
      → let t = if b then checkpoint engine cfg frame_idx r else r in
        (logged t ≡ logged r)
        × (t.checkpoints
            ≡ r.checkpoints ++ map (mark (flicker_gauge r)) (if b then suc frame_idx ∷ [] else []))
        × (flicker_gauge t ≡ flicker_gauge r)
  turn_end true frame_idx r = (
    refl,
    ap
        (λ k.
          r.checkpoints
          ++ record (mark (flicker_gauge r) (suc frame_idx)) { last_completed_frame = k } ∷ [])
        (omega arith),
    refl,
  )
  turn_end false frame_idx r = (refl, sym (append_nil r.checkpoints), refl)

  logged_frame :
      (result : FrameResult W) (out : I) (r : Runner W I K T)
      → let t = log_frame engine cfg result out r in
        (logged t ≡ logged r ++ result.frame_idx ∷ [])
        × (t.checkpoints ≡ r.checkpoints)
        × (flicker_gauge t ≡ flicker_gauge r)
  unfolding log_frame
  logged_frame result out r = (
    map-snoc (λ x. x.frame_idx) r.quality (to_json_obj engine.round result),
    refl,
    gauge-observe engine.top engine.bottom _ _ _ _ ∙ gauge-inc engine.top engine.bottom _ _ _ _,
  )

  do_frame-Added :
      (frame : I) (frame_idx : ℕ) (r : Runner W I K T)
      → Added r
          (do_frame engine cfg frame frame_idx r)
          (frame_idx ∷ [])
          (select due (suc frame_idx ∷ []))
  unfolding do_frame
  do_frame-Added frame frame_idx r =
      let found = find_picks engine cfg frame frame_idx r in
      let sharpen = base_sharpen engine cfg in
      let tried = process_with_retry engine cfg frame found.0 frame_idx sharpen found.1 in
      let timed = record (tried.0) {
        duration_ms = engine.duration frame_idx;
        vram_peak_mb = engine.vram frame_idx;
      } in
      let (q0, c0, m0, _) = find_picks_same frame frame_idx r in
      let (q1, c1, m1, _) =
        process_with_retry_same engine cfg frame found.0 frame_idx sharpen found.1 in
      let named = process_with_retry-index engine cfg frame found.0 frame_idx sharpen found.1 in
      let (q2, c2, g2) = logged_frame timed tried.1 tried.2 in
      let (q3, c3, g3) =
        turn_end (due (suc frame_idx)) frame_idx (log_frame engine cfg timed tried.1 tried.2) in
      let before : (List (FrameResult W) → List ℕ) = map (λ x. x.frame_idx) in
      let level = g2 ∙ ap (gauge "flicker_score") (m1 ∙ m0) in
      (
        q3 ∙ q2 ∙ ap₂ (λ xs i. before xs ++ i ∷ []) (q1 ∙ q0) named,
        c3
            ∙ ap₂ (λ xs g. xs ++ map (mark g) (select due (suc frame_idx ∷ []))) (c2 ∙ c1 ∙ c0)
                level,
        g3 ∙ level,
      )

  marks-append :
      (g : W) (x : ℕ) (xs : List ℕ)
      → map (mark g) (select due (x ∷ [])) ++ map (mark g) (select due xs)
        ≡ map (mark g) (select due (x ∷ xs))
  marks-append g x xs = elim (Bool-cases (due x)) [ inl e ↦ rw e refl | inr e ↦ rw e refl ]

  -- The frame loop logs one line for each frame, in order. It writes a checkpoint after exactly
  -- those frames whose number from 1 on is a multiple of `checkpoint_every_n_frames`, each naming
  -- the frame done and the next one; the flicker it saves is in all of them the value that the
  -- gauge had before the loop, since no frame changes it.
  pub frame_loop-logged :
      (frames : List I) (frame_idx : ℕ) (r : Runner W I K T)
      → let t = frame_loop engine cfg frames frame_idx r in
        (logged t ≡ logged r ++ count_up frame_idx (length frames))
        × (t.checkpoints
            ≡ r.checkpoints
              ++ map
                  (mark (flicker_gauge r))
                  (select due (count_up (suc frame_idx) (length frames))))
        × (flicker_gauge t ≡ flicker_gauge r)
  unfolding frame_loop
  frame_loop-logged [] frame_idx r = (sym (append_nil _), sym (append_nil _), refl)
  frame_loop-logged (frame ∷ rest) frame_idx r =
      let (q, c, g) =
        frame_loop-logged rest (suc frame_idx) (do_frame engine cfg frame frame_idx r) in
      let (q', c', g') = do_frame-Added frame frame_idx r in
      let later = select due (count_up (suc (suc frame_idx)) (length rest)) in
      (
        q
            ∙ ap (λ xs. xs ++ count_up (suc frame_idx) (length rest)) q'
            ∙ append_assoc (logged r) (frame_idx ∷ []) _,
        c
            ∙ ap₂ (λ xs m. xs ++ map (mark m) later) c' g'
            ∙ append_assoc r.checkpoints
                (map (mark (flicker_gauge r)) (select due (suc frame_idx ∷ []))) _
            ∙ ap (λ xs. r.checkpoints ++ xs) (marks-append (flicker_gauge r) (suc frame_idx) _),
        g ∙ g',
      )

  length-drop : (n : ℕ) (xs : List I) → length (drop n xs) ≡ length xs - n
  length-drop zero xs = omega arith
  length-drop (suc n) [] = omega arith
  length-drop (suc n) (x ∷ xs) = omega (arith, length-drop n xs)

  -- A run that dies after `m` frames and is resumed from a checkpoint at a frame `c` after 0, with the log
  -- file as the dead run has left it, ends with a log of the frames 0 to m - 1 followed by the
  -- frames c to the last: those from c to m - 1 are in it twice.
  pub resume_repeats :
      (frames : List I) (m c : ℕ) (r resumed : Runner W I K T)
      → m ≤ length frames
      → 0 < c
      → resumed.quality ≡ (execute_frames engine cfg (take m frames) 0 r).quality
      → logged (execute_frames engine cfg frames c resumed)
        ≡ count_up 0 m ++ count_up c (length frames - c)
  unfolding execute_frames
  resume_repeats frames m c r resumed le pos same =
      let before : (List (FrameResult W) → List ℕ) = map (λ x. x.frame_idx) in
      let opened = record resumed { quality = if ltb 0 c then resumed.quality else [] } in
      let kept : (opened.quality ≡ resumed.quality) = rw (lt→ltb 0 c pos) refl in
      let dead = frame_loop-logged (take m frames) 0 (record r { quality = [] }) in
      let live = frame_loop-logged (drop c frames) c opened in
      live.0
      ∙ ap₂ (λ xs n. before xs ++ count_up c n) (kept ∙ same) (length-drop c frames)
      ∙ ap (λ xs. xs ++ count_up c (length frames - c))
          (dead.0 ∙ ap (count_up 0) (omega (arith, length-take m frames)))

  length-count_up : (k n : ℕ) → length (count_up k n) ≡ n
  length-count_up k zero = refl
  length-count_up k (suc n) = ap suc (length-count_up (suc k) n)

  pub execute_frames-lines :
      (frames : List I) (r : Runner W I K T)
      → length (execute_frames engine cfg frames 0 r).quality ≡ length frames
  unfolding execute_frames
  execute_frames-lines frames r =
      sym (length-map _ (λ x. x.frame_idx))
      ∙ ap length ((frame_loop-logged frames 0 (record r { quality = [] })).0)
      ∙ length-count_up 0 (length frames)
