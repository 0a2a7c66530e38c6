-- ===== src/Server/Streaming/Waits.antt =====
-- What the threads of run_streaming can still put into the queues once the caller has emptied them.
pub mod Settles
pub mod Progress
use face_swap_streamer_versi.Prelude.{
  ℕ, ◌≡◌, refl, sym, subst, ap, ◌+◌, ◌≤◌, ◌++◌, length, sum_of, sum_of-snoc, length-append, arith,
  Bool, true, false, List, [], ◌∷◌,
}
use face_swap_streamer_versi.Server.Worker.{Result, ok}
use face_swap_streamer_versi.Server.Streaming.{
  Item, item, end, Reader, reading, offering, Detector, taking, passing, Writer, collecting,
  writing, discarding, Ending, finished, pipe_broken, raised, Phase, flagging, emptying_read,
  emptying_detect, stopping, joining_writer, joining_detect, joining_reader, ended, Main, heading,
  checking, waiting, sending, putting, leaving, Line,
}
use face_swap_streamer_versi.Server.Streaming.Moves.{
  Move, read, read_end, read_stop, offer, close_read, take, take_raise, take_end, pass,
  close_detect, cancel, head, check_broken, check, get, get_raise, get_end, send_broken, send_check,
  put, flag, drop_read, read_empty, drop_detect, detect_empty, put_end, join_writer, join_detect,
  join_reader, fetch, fetch_end, write, break, discard, discard_end, Timeout, writer_late,
  detect_late, reader_late, Reach, start, moved, late, count_swaps, send, has_room, leave,
}
use face_swap_streamer_versi.Server.Streaming.Intake.{detector_gone}
use face_swap_streamer_versi.Server.Streaming.Order.{Ordered}

module _ {A : Type 0} where
  abbrev pub is_frame : Item A → ℕ
  is_frame (item f) = 1
  is_frame end = 0

  -- The entries that the reader can still put, while it is told to stop.
  abbrev pub read_load : Reader A → ℕ
  read_load reading = 1
  read_load (offering f) = 2
  read_load Reader.closing = 1
  read_load Reader.gone = 0

  abbrev pub offers : Reader A → ℕ
  offers (offering f) = 1
  offers _ = 0

  -- What holds once the queues have been emptied, of the flag, the entries in the read queue and
  -- to come there, those to come to the detect queue, and those in it.
  abbrev pub Late : Main A → Bool → ℕ → ℕ → ℕ → Type 0
  Late (leaving flagging e) stop reads detects q = Unit
  Late (leaving emptying_read e) stop reads detects q = stop ≡ true
  Late (leaving emptying_detect e) stop reads detects q =
      (stop ≡ true) × (reads ≤ 2) × (detects ≤ 3)
  Late (leaving stopping e) stop reads detects q = (stop ≡ true) × (reads ≤ 2) × (q + detects ≤ 3)
  Late (leaving joining_writer e) stop reads detects q =
      (stop ≡ true) × (reads ≤ 2) × (q + detects ≤ 3)
  Late (leaving joining_detect e) stop reads detects q =
      (stop ≡ true) × (reads ≤ 2) × (q + detects ≤ 3)
  Late (leaving joining_reader e) stop reads detects q =
      (stop ≡ true) × (reads ≤ 2) × (q + detects ≤ 3)
  Late (leaving ended e) stop reads detects q = (stop ≡ true) × (reads ≤ 2) × (q + detects ≤ 3)
  Late _ stop reads detects q = Unit

  -- Once told to stop, the threads have ever less to put.
  pub Late-step :
      (m : Main A) (stop : Bool) (a b c a' b' c' : ℕ)
      → (stop ≡ true → (a' ≤ a) × (b' ≤ b) × (c' + b' ≤ c + b))
      → Late m stop a b c
      → Late m stop a' b' c'
  Late-step (leaving flagging e) stop a b c a' b' c' less l = tt
  Late-step (leaving emptying_read e) stop a b c a' b' c' less l = l
  Late-step (leaving emptying_detect e) stop a b c a' b' c' less l =
      let (x, y, z) = less l.0 in (l.0, omega arith, omega arith)
  Late-step (leaving stopping e) stop a b c a' b' c' less l =
      let (x, y, z) = less l.0 in (l.0, omega arith, omega arith)
  Late-step (leaving joining_writer e) stop a b c a' b' c' less l =
      let (x, y, z) = less l.0 in (l.0, omega arith, omega arith)
  Late-step (leaving joining_detect e) stop a b c a' b' c' less l =
      let (x, y, z) = less l.0 in (l.0, omega arith, omega arith)
  Late-step (leaving joining_reader e) stop a b c a' b' c' less l =
      let (x, y, z) = less l.0 in (l.0, omega arith, omega arith)
  Late-step (leaving ended e) stop a b c a' b' c' less l =
      let (x, y, z) = less l.0 in (l.0, omega arith, omega arith)
  Late-step heading stop a b c a' b' c' less l = tt
  Late-step checking stop a b c a' b' c' less l = tt
  Late-step waiting stop a b c a' b' c' less l = tt
  Late-step (sending g) stop a b c a' b' c' less l = tt
  Late-step (putting g) stop a b c a' b' c' less l = tt

module _ {A P : Type 0} where
  abbrev pub detect_load : Detector A P → ℕ
  detect_load taking = 1
  detect_load (passing f p) = 2
  detect_load Detector.closing = 1
  detect_load Detector.gone = 0

  abbrev pub reads : Line A P → ℕ
  reads s = length s.read_q + read_load s.reader

  abbrev pub detects : Line A P → ℕ
  detects s = sum_of is_frame s.read_q + offers s.reader + detect_load s.detector

  -- END was got from a thread that has returned.
  abbrev pub Heard : Ending → Detector A P → Type 0
  Heard finished d = detector_gone d ≡ true
  Heard pipe_broken d = Unit
  Heard (raised e) d = Unit

  abbrev pub Answered : Main A → Detector A P → Type 0
  Answered (leaving p e) d = Heard e d
  Answered _ d = Unit

  pub Answered-alive :
      (m : Main A) (d d' : Detector A P) → detector_gone d ≡ false → Answered m d → Answered m d'
  Answered-alive (leaving p finished) d d' alive h = absurd (cc (alive, h))
  Answered-alive (leaving p pipe_broken) d d' alive h = tt
  Answered-alive (leaving p (raised e)) d d' alive h = tt
  Answered-alive heading d d' alive h = tt
  Answered-alive checking d d' alive h = tt
  Answered-alive waiting d d' alive h = tt
  Answered-alive (sending g) d d' alive h = tt
  Answered-alive (putting g) d d' alive h = tt

  pub record Settled (s : Line A P) : Type 0 where
    pub settles : Late s.main s.stop_flag (reads s) (detects s) (length s.detect_q)
    pub answered : Answered s.main s.detector
