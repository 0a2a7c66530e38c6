-- ===== src/Server/Streaming/Order/Video.antt =====
-- The video that run_streaming makes, and what it raises.
use face_swap_streamer_versi.Prelude.{
  ℕ, ◌≡◌, ◌⊎◌, inl, inr, refl, ap, sym, subst, ◌∙◌, Bool, false, ==_iff, List, [], ◌++◌, map, some,
  String, take, drop, take-append-drop, append_assoc, append_nil, get_elem?, sum_of, arith,
}
use mathlib.Core.List.{map-append}
use face_swap_streamer_versi.Server.Worker.{Result, ok, raise}
use face_swap_streamer_versi.Server.Streaming.{
  Writer, Ending, finished, pipe_broken, raised, ended, leaving, Line, Exit, timed_out, exited,
  killed, Failure, finalise, close_up,
}
use face_swap_streamer_versi.Server.Streaming.Moves.{Reach}
use face_swap_streamer_versi.Server.Streaming.Outflow.{
  image_of, faces_of, Unraised, Calm, flight, hand,
}
use face_swap_streamer_versi.Server.Streaming.Order.{Justifies, Justified}
use face_swap_streamer_versi.Server.Streaming.Order.Kept.{Reach-Ordered}

-- An error of the pipe that has not broken is reported.
close_up-raises :
    (broken : Bool) (exit : Exit) (log : String) {text : String}
    → close_up broken exit log ≡ raise text
    → (exit ≡ timed_out) × (text ≡ "ffmpeg did not exit in time")
      ⊎ (Failure exit × (broken ≡ false) × (text ≡ log))
unfolding close_up Failure
close_up-raises broken timed_out log h = inl (refl, cc)
close_up-raises broken (exited code) log h =
    inr (ground (arith, ==_iff code 0), ground (arith, h), ground (arith, h))
close_up-raises broken (killed signal) log h = inr (tt, ground (arith, h), ground (arith, h))

finalise-quiet :
    (e : Ending) (broken : Bool) (exit : Exit) (log : String)
    → finalise e broken exit log ≡ ok tt
    → Calm e
unfolding finalise
finalise-quiet (raised text) broken exit log h = absurd (cc)
finalise-quiet finished broken exit log h = tt
finalise-quiet pipe_broken broken exit log h = tt

module _ {A P : Type 0} {depth : ℕ} {detect : A → Result P} {swap : A → P → Result (A × ℕ)}
    {frames : List A} {k : ℕ} {s : Line A P} (r : Reach depth detect swap frames k s) where
  -- Whatever turns the threads take, and whatever fails: what ffmpeg has been given is always a
  -- beginning of the video, each of its frames swapped, in the order of the video.
  pub streamed_in_order : (rest : List A) × (s.written ++ rest ≡ map (image_of detect swap) frames)
  streamed_in_order =
      let o = (Reach-Ordered depth detect swap frames r).out in
      let way = flight s.writer o.queued (hand s.main) ++ o.lost in
      (
        way ++ map (image_of detect swap) (drop s.n frames),
        sym (append_assoc s.written way _)
            ∙ ap (λ xs. xs ++ map (image_of detect swap) (drop s.n frames)) o.out
            ∙ sym (map-append (image_of detect swap) (take s.n frames) (drop s.n frames))
            ∙ ap (map (image_of detect swap)) (take-append-drop s.n frames),
      )

  justified :
      {e : Ending}
      → s.main ≡ leaving ended e
      → Justifies detect swap frames e s.n s.broken s.detector_error
  justified over =
      subst (λ m. Justified detect swap frames m s.n s.broken s.detector_error) over
        (Reach-Ordered depth detect swap frames r).just

  module _ {e : Ending} (exit : Exit) (log : String) (over : s.main ≡ leaving ended e) where
    -- When `run_streaming` returns without an exception, and neither has the pipe to ffmpeg broken
    -- nor the detecting thread died, and the writer was joined in time: then ffmpeg has been given
    -- the whole video, each frame swapped, in order, and `swap_count` is the number of faces
    -- swapped in it.
    pub run_streaming_whole :
        finalise e s.broken exit log ≡ ok tt
        → s.broken ≡ false
        → s.detector_error ≡ false
        → s.writer ≡ Writer.gone
        → (s.written ≡ map (image_of detect swap) frames)
          × (s.swap_count ≡ sum_of (faces_of detect swap) frames)
    run_streaming_whole quiet pipe well joined =
        let o = (Reach-Ordered depth detect swap frames r).out in
        let calm = subst Unraised (sym over) (finalise-quiet e s.broken exit log quiet) in
        let all =
          sym (append_nil (take s.n frames))
          ∙ ap (λ xs. take s.n frames ++ xs)
              (sym (to_end e (justified over) (finalise-quiet e s.broken exit log quiet)))
          ∙ take-append-drop s.n frames in
        (
          sym (append_nil s.written)
              ∙ ap (λ xs. s.written ++ xs) (sym (o.clean pipe calm))
              ∙ ap (λ w. s.written ++ (flight w o.queued (hand s.main) ++ o.lost)) (sym joined)
              ∙ o.out
              ∙ ap (map (image_of detect swap)) all,
          o.counted calm ∙ ap (sum_of (faces_of detect swap)) all,
        )
      where
        to_end :
            (e : Ending)
            → Justifies detect swap frames e s.n s.broken s.detector_error
            → Calm e
            → drop s.n frames ≡ []
        to_end finished j c = j well
        to_end pipe_broken j c = absurd (cc (j, pipe))
        to_end (raised text) j c = absurd c

    -- An exception of `run_streaming`, once its threads run, is what the swapping of some frame of
    -- the video has raised, or ffmpeg has not ended in time, or it has ended with an error while
    -- its pipe was whole. So a failure of the detecting thread is never reported, and the job is
    -- never "cancelled".
    pub run_streaming_raises :
        {text : String}
        → finalise e s.broken exit log ≡ raise text
        → ((i : ℕ) × (f : A) × (p : P) × (get_elem? frames i ≡ some f)
            × (detect f ≡ ok p)
            × (swap f p ≡ raise text))
          ⊎ ((exit ≡ timed_out) × (text ≡ "ffmpeg did not exit in time"))
          ⊎ (Failure exit × (s.broken ≡ false) × (text ≡ log))
    unfolding finalise
    run_streaming_raises {text} h = cases e (justified over) h
      where
        cases :
            (e : Ending)
            → Justifies detect swap frames e s.n s.broken s.detector_error
            → finalise e s.broken exit log ≡ raise text
            → ((i : ℕ) × (f : A) × (p : P) × (get_elem? frames i ≡ some f)
                × (detect f ≡ ok p)
                × (swap f p ≡ raise text))
              ⊎ ((exit ≡ timed_out) × (text ≡ "ffmpeg did not exit in time"))
              ⊎ (Failure exit × (s.broken ≡ false) × (text ≡ log))
        cases finished j h = inr (close_up-raises s.broken exit log h)
        cases pipe_broken j h = inr (close_up-raises s.broken exit log h)
        cases (raised e) (i, f, p, at, found, made) h =
            let same : (e ≡ text) = cc in inl (i, f, p, at, found, made ∙ ap raise same)
