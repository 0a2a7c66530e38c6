-- ===== src/Server/Streaming/Samples.antt =====
-- A video of one frame, with one face, through run_streaming.
use face_swap_streamer_versi.Prelude.{
  ℕ, ◌+◌, ◌*◌, ◌≤◌, ◌≡◌, ◌⊎◌, inr, refl, true, false, List, [], ◌∷◌, ◌++◌, map, sum_of, some,
  get_elem?, String, length, arith,
}
use face_swap_streamer_versi.Floats.Fixed.{ℤ, pos, fixed_floats}
use face_swap_streamer_versi.Server.Worker.{Result, ok, raise}
use face_swap_streamer_versi.Server.Streaming.{
  Line, Nets, opening, detect_frame, swap_picks, exited, timed_out, Failure, finalise,
}
use face_swap_streamer_versi.Server.Streaming.Moves.{
  read, read_end, offer, close_read, take, take_end, pass, close_detect, head, check, get, get_end,
  send_check, put, flag, read_empty, detect_empty, put_end, join_writer, join_detect, join_reader,
  fetch, fetch_end, write, Reach, start, moved, count_swaps, send,
}
use face_swap_streamer_versi.Server.Streaming.Outflow.{image_of, faces_of}
use face_swap_streamer_versi.Server.Streaming.Order.Video.{
  streamed_in_order, run_streaming_whole, run_streaming_raises,
}
use face_swap_streamer_versi.Server.Streaming.Waits.Progress.{CanMove, Stranded, streaming_progress}
use face_swap_streamer_versi.Server.Streaming.Ends.{streaming_terminates}

-- Every frame shows one face, which is like source 0; the pasting makes it the frame plus 100.
abbrev one_face : Nets ℤ ℕ ℕ
one_face = record {
  get_faces = λ frame. ok (frame ∷ []);
  sim = λ face si. pos 900;
  argmax = λ face. 0;
  paste = λ frame face si. ok (frame + 100);
}

abbrev detect : ℕ → Result (List (ℕ × ℕ))
detect = detect_frame one_face (pos 180)

abbrev swap : ℕ → List (ℕ × ℕ) → Result (ℕ × ℕ)
swap = swap_picks one_face (pos 180)

record Run : Type 0 where
  steps : ℕ
  last : Line ℕ (List (ℕ × ℕ))
  reach : Reach 4 detect swap (7 ∷ []) steps last

-- The frame comes to the caller's hand.
abbrev swapped : Run
unfolding opening detect_frame swap_picks count_swaps
swapped = record {
  steps = _;
  last = _;
  reach =
      moved
        (moved
          (moved
            (moved
              (moved (moved (moved start (read refl refl refl)) (offer refl refl))
                (take refl refl refl))
              (pass refl refl))
            (head refl refl))
          (check refl refl))
        (get refl refl refl);
}

-- END comes to the caller.
abbrev got_end : Run
unfolding opening detect_frame swap_picks count_swaps send
got_end = record {
  steps = _;
  last = _;
  reach =
      moved
        (moved
          (moved
            (moved
              (moved
                (moved
                  (moved (moved (moved swapped.reach (send_check refl refl)) (put true refl refl))
                    (read_end refl refl refl))
                  (close_read refl refl))
                (take_end refl refl))
              (close_detect refl refl))
            (head refl refl))
          (check refl refl))
        (get_end refl refl);
}

abbrev all_done : Run
unfolding opening detect_frame swap_picks count_swaps send
all_done = record {
  steps = _;
  last = _;
  reach =
      moved
        (moved
          (moved
            (moved
              (moved
                (moved
                  (moved
                    (moved (moved (moved got_end.reach (flag refl)) (read_empty refl refl))
                      (detect_empty refl refl))
                    (put_end refl refl))
                  (fetch refl refl))
                (write refl refl))
              (fetch_end refl refl))
            (join_writer refl refl))
          (join_detect refl refl))
        (join_reader refl refl);
}

streamed_in_order_example :
    (rest : List ℕ) × (swapped.last.written ++ rest ≡ map (image_of detect swap) (7 ∷ []))
streamed_in_order_example = streamed_in_order swapped.reach

run_streaming_whole_example :
    (all_done.last.written ≡ map (image_of detect swap) (7 ∷ []))
    × (all_done.last.swap_count ≡ sum_of (faces_of detect swap) (7 ∷ []))
unfolding opening detect_frame swap_picks count_swaps send finalise
run_streaming_whole_example =
    run_streaming_whole all_done.reach (exited 0) "" refl refl refl refl refl

run_streaming_raises_example :
    ((i : ℕ) × (f : ℕ) × (p : List (ℕ × ℕ)) × (get_elem? (7 ∷ []) i ≡ some f)
      × (detect f ≡ ok p)
      × (swap f p ≡ raise "ffmpeg did not exit in time"))
    ⊎ ((timed_out ≡ timed_out)
        × (◌≡◌ {A = String} "ffmpeg did not exit in time" "ffmpeg did not exit in time"))
    ⊎ (Failure timed_out
        × (all_done.last.broken ≡ false)
        × (◌≡◌ {A = String} "ffmpeg did not exit in time" ""))
unfolding opening detect_frame swap_picks count_swaps send finalise
run_streaming_raises_example = run_streaming_raises all_done.reach timed_out "" refl refl

streaming_progress_example :
    CanMove 4 detect swap swapped.last ⊎ Stranded 4 detect swap swapped.last
unfolding opening detect_frame swap_picks count_swaps
streaming_progress_example = streaming_progress 4 detect swap (inr (omega arith)) swapped.reach refl

streaming_terminates_example : all_done.steps ≤ 11 * length {A = ℕ} (7 ∷ []) + 18
streaming_terminates_example = streaming_terminates 4 detect swap all_done.reach
