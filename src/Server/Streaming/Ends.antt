-- ===== src/Server/Streaming/Ends.antt =====
-- The threads of run_streaming cannot go on for ever: each step uses up work.
use face_swap_streamer_versi.Prelude.{
  ℕ, ◌+◌, ◌*◌, ◌≤◌, ◌<◌, ap, List, length, sum_of, sum_of-snoc, arith,
}
use face_swap_streamer_versi.Server.Worker.{Result}
use face_swap_streamer_versi.Server.Streaming.{
  Item, item, end, Reader, reading, offering, Detector, taking, passing, Writer, collecting,
  writing, discarding, flagging, emptying_read, emptying_detect, stopping, joining_writer,
  joining_detect, joining_reader, ended, Main, heading, checking, waiting, sending, putting,
  leaving, Line, opening,
}
use face_swap_streamer_versi.Server.Streaming.Moves.{
  Move, read, read_end, read_stop, offer, close_read, take, take_raise, take_end, pass,
  close_detect, cancel, head, check_broken, check, get, get_raise, get_end, send_broken, send_check,
  put, flag, drop_read, read_empty, drop_detect, detect_empty, put_end, join_writer, join_detect,
  join_reader, fetch, fetch_end, write, break, discard, discard_end, Timeout, writer_late,
  detect_late, reader_late, Reach, start, moved, late, count_swaps, send,
}

module _ {A : Type 0} where
  abbrev load : ℕ → Item A → ℕ
  load n (item x) = n
  load n end = 1

  abbrev reader_work : Reader A → ℕ
  reader_work reading = 3
  reader_work (offering f) = 13
  reader_work Reader.closing = 2
  reader_work Reader.gone = 0

  abbrev writer_work : Writer A → ℕ
  writer_work collecting = 1
  writer_work (writing g) = 2
  writer_work discarding = 1
  writer_work Writer.gone = 0

  abbrev main_work : Main A → ℕ
  main_work heading = 11
  main_work checking = 10
  main_work waiting = 9
  main_work (sending g) = 15
  main_work (putting g) = 14
  main_work (leaving flagging e) = 8
  main_work (leaving emptying_read e) = 7
  main_work (leaving emptying_detect e) = 6
  main_work (leaving stopping e) = 5
  main_work (leaving joining_writer e) = 3
  main_work (leaving joining_detect e) = 2
  main_work (leaving joining_reader e) = 1
  main_work (leaving ended e) = 0

module _ {A P : Type 0} where
  abbrev detector_work : Detector A P → ℕ
  detector_work taking = 3
  detector_work (passing f p) = 11
  detector_work Detector.closing = 2
  detector_work Detector.gone = 0

  -- The steps that are left at most.
  abbrev pub work : Line A P → ℕ
  work s =
      11 * length s.source
      + reader_work s.reader
      + sum_of (load 9) s.read_q
      + detector_work s.detector
      + sum_of (load 7) s.detect_q
      + main_work s.main
      + sum_of (load 2) s.write_q
      + writer_work s.writer

module _ {A P : Type 0} (depth : ℕ) (detect : A → Result P) (swap : A → P → Result (A × ℕ)) where
  Move-work : {s t : Line A P} → Move depth detect swap s t → work t < work s
  unfolding count_swaps send
  Move-work (read r _ src) = omega (arith, ap reader_work r, ap length src)
  Move-work (read_end r _ _) = omega (arith, ap reader_work r)
  Move-work (read_stop r _) = omega (arith, ap reader_work r)
  Move-work {s} (offer {frame} r _) =
      omega (arith, ap reader_work r, sum_of-snoc (load 9) s.read_q (item frame))
  Move-work {s} (close_read r _) =
      omega (arith, ap reader_work r, sum_of-snoc (load 9) s.read_q end)
  Move-work (take d q _) = omega (arith, ap detector_work d, ap (sum_of (load 9)) q)
  Move-work (take_raise d q _) = omega (arith, ap detector_work d, ap (sum_of (load 9)) q)
  Move-work (take_end d q) = omega (arith, ap detector_work d, ap (sum_of (load 9)) q)
  Move-work {s} (pass {frame} {picks} d _) =
      omega (arith, ap detector_work d, sum_of-snoc (load 7) s.detect_q (item (frame, picks)))
  Move-work {s} (close_detect d _) =
      omega (arith, ap detector_work d, sum_of-snoc (load 7) s.detect_q end)
  Move-work (cancel m _) = omega (arith, ap main_work m)
  Move-work (head m _) = omega (arith, ap main_work m)
  Move-work (check_broken m _) = omega (arith, ap main_work m)
  Move-work (check m _) = omega (arith, ap main_work m)
  Move-work (get m q _) = omega (arith, ap main_work m, ap (sum_of (load 7)) q)
  Move-work (get_raise m q _) = omega (arith, ap main_work m, ap (sum_of (load 7)) q)
  Move-work (get_end m q) = omega (arith, ap main_work m, ap (sum_of (load 7)) q)
  Move-work (send_broken m _) = omega (arith, ap main_work m)
  Move-work (send_check m _) = omega (arith, ap main_work m)
  Move-work {s} (put {g} _ m _) =
      omega (arith, ap main_work m, sum_of-snoc (load 2) s.write_q (item g))
  Move-work (flag m) = omega (arith, ap main_work m)
  Move-work {s} (drop_read {x = item f} m q) = omega (arith, ap (sum_of (load 9)) q)
  Move-work {s} (drop_read {x = end} m q) = omega (arith, ap (sum_of (load 9)) q)
  Move-work (read_empty m _) = omega (arith, ap main_work m)
  Move-work {s} (drop_detect {x = item f} m q) = omega (arith, ap (sum_of (load 7)) q)
  Move-work {s} (drop_detect {x = end} m q) = omega (arith, ap (sum_of (load 7)) q)
  Move-work (detect_empty m _) = omega (arith, ap main_work m)
  Move-work {s} (put_end m _) = omega (arith, ap main_work m, sum_of-snoc (load 2) s.write_q end)
  Move-work (join_writer m _) = omega (arith, ap main_work m)
  Move-work (join_detect m _) = omega (arith, ap main_work m)
  Move-work (join_reader m _) = omega (arith, ap main_work m)
  Move-work (fetch w q) = omega (arith, ap writer_work w, ap (sum_of (load 2)) q)
  Move-work (fetch_end w q) = omega (arith, ap writer_work w, ap (sum_of (load 2)) q)
  Move-work (write w _) = omega (arith, ap writer_work w)
  Move-work (break w _) = omega (arith, ap writer_work w)
  Move-work (discard w q) = omega (arith, ap writer_work w, ap (sum_of (load 2)) q)
  Move-work (discard_end w q) = omega (arith, ap writer_work w, ap (sum_of (load 2)) q)

  Timeout-work : {s t : Line A P} → Timeout depth detect swap s t → work t < work s
  Timeout-work (writer_late m) = omega (arith, ap main_work m)
  Timeout-work (detect_late m) = omega (arith, ap main_work m)
  Timeout-work (reader_late m) = omega (arith, ap main_work m)

  module _ {frames : List A} where
    -- The steps taken and the work that is left.
    pub Reach-work :
        {k : ℕ} {s : Line A P}
        → Reach depth detect swap frames k s
        → k + work s ≤ 11 * length frames + 18
    unfolding opening
    Reach-work start = omega arith
    Reach-work (moved r m) = omega (arith, Reach-work r, Move-work m)
    Reach-work (late r t) = omega (arith, Reach-work r, Timeout-work t)

    -- However the threads take turns, and whatever fails: they take at most eleven steps for each
    -- frame of the video and eighteen more.
    pub streaming_terminates :
        {k : ℕ} {s : Line A P} → Reach depth detect swap frames k s → k ≤ 11 * length frames + 18
    streaming_terminates r = omega (arith, Reach-work r)
