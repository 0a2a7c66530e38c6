-- ===== src/Server/Streaming/Moves.antt =====
-- server/worker.py, `run_streaming`: which thread may take which step.
use face_swap_streamer_versi.Prelude.{
  ℕ, suc, ◌+◌, ◌≡◌, Bool, true, false, ◌||◌, ◌==◌, ltb, if◌then◌else◌, List, [], ◌∷◌, ◌++◌, String,
  length,
}
use face_swap_streamer_versi.Server.Worker.{Result, ok, raise}
use face_swap_streamer_versi.Server.Streaming.{
  Item, item, end, Reader, reading, offering, Detector, taking, passing, Writer, collecting,
  writing, discarding, Ending, finished, pipe_broken, raised, flagging, emptying_read,
  emptying_detect, stopping, joining_writer, joining_detect, joining_reader, ended, Main, heading,
  checking, waiting, sending, putting, leaving, Line, opening,
}

-- A queue.Queue(maxsize=depth) takes another item; with maxsize 0 it always does.
abbrev pub has_room {ℓ} : {A : Type ℓ} → ℕ → List A → Bool
has_room depth q = depth == 0 || ltb (length q) depth

-- ffmpeg.stdin has been closed.
abbrev pub is_over : {A : Type 0} → Main A → Bool
is_over (leaving ended e) = true
is_over _ = false

module _ {A P : Type 0} where
  -- The swapped frame is counted.
  unfoldable pub count_swaps : List (Item (A × P)) → A → ℕ → Line A P → Line A P
  count_swaps rest g k s = record s {
    detect_q = rest;
    n = suc s.n;
    swap_count = s.swap_count + k;
    main = sending g;
  }

  -- write_q.put, and the job's counters if half a second has passed.
  unfoldable pub send : Bool → A → Line A P → Line A P
  send report g s = record s {
    write_q = s.write_q ++ item g ∷ [];
    main = heading;
    current_frame = if report then s.n else s.current_frame;
    shown_swaps = if report then s.swap_count else s.shown_swaps;
  }

  abbrev pub leave : Ending → Line A P → Line A P
  leave e s = record s { main = leaving flagging e }

  module _ (depth : ℕ) (detect : A → Result P) (swap : A → P → Result (A × ℕ)) where
    -- One step of one thread.
    pub data Move (s : Line A P) : Line A P → Type 0 where
      -- The reader.
      read :
          {frame : A} {rest : List A}
          → s.reader ≡ reading
          → s.stop_flag ≡ false
          → s.source ≡ frame ∷ rest
          → Move s (record s { source = rest; reader = offering frame })
      read_end :
          s.reader ≡ reading
          → s.stop_flag ≡ false
          → s.source ≡ []
          → Move s (record s { reader = Reader.closing })
      read_stop :
          s.reader ≡ reading → s.stop_flag ≡ true → Move s (record s { reader = Reader.closing })
      offer :
          {frame : A}
          → s.reader ≡ offering frame
          → has_room depth s.read_q ≡ true
          → Move s (record s { read_q = s.read_q ++ item frame ∷ []; reader = reading })
      close_read :
          s.reader ≡ Reader.closing
          → has_room depth s.read_q ≡ true
          → Move s (record s { read_q = s.read_q ++ end ∷ []; reader = Reader.gone })
      -- The detecting thread.
      take :
          {frame : A} {picks : P} {rest : List (Item A)}
          → s.detector ≡ taking
          → s.read_q ≡ item frame ∷ rest
          → detect frame ≡ ok picks
          → Move s (record s { read_q = rest; detector = passing frame picks })
      take_raise :
          {frame : A} {text : String} {rest : List (Item A)}
          → s.detector ≡ taking
          → s.read_q ≡ item frame ∷ rest
          → detect frame ≡ raise text
          → Move s (record s { read_q = rest; detector = Detector.closing; detector_error = true })
      take_end :
          {rest : List (Item A)}
          → s.detector ≡ taking
          → s.read_q ≡ end ∷ rest
          → Move s (record s { read_q = rest; detector = Detector.closing })
      pass :
          {frame : A} {picks : P}
          → s.detector ≡ passing frame picks
          → has_room depth s.detect_q ≡ true
          → Move s
              (record s { detect_q = s.detect_q ++ item (frame, picks) ∷ []; detector = taking })
      close_detect :
          s.detector ≡ Detector.closing
          → has_room depth s.detect_q ≡ true
          → Move s (record s { detect_q = s.detect_q ++ end ∷ []; detector = Detector.gone })
      -- The loop of the caller.
      cancel : s.main ≡ heading → s.stop_flag ≡ true → Move s (leave (raised "cancelled") s)
      head : s.main ≡ heading → s.stop_flag ≡ false → Move s (record s { main = checking })
      check_broken : s.main ≡ checking → s.broken ≡ true → Move s (leave pipe_broken s)
      check : s.main ≡ checking → s.broken ≡ false → Move s (record s { main = waiting })
      get :
          {frame g : A} {picks : P} {k : ℕ} {rest : List (Item (A × P))}
          → s.main ≡ waiting
          → s.detect_q ≡ item (frame, picks) ∷ rest
          → swap frame picks ≡ ok (g, k)
          → Move s (count_swaps rest g k s)
      get_raise :
          {frame : A} {picks : P} {text : String} {rest : List (Item (A × P))}
          → s.main ≡ waiting
          → s.detect_q ≡ item (frame, picks) ∷ rest
          → swap frame picks ≡ raise text
          → Move s (leave (raised text) (record s { detect_q = rest; n = suc s.n }))
      get_end :
          {rest : List (Item (A × P))}
          → s.main ≡ waiting
          → s.detect_q ≡ end ∷ rest
          → Move s (leave finished (record s { detect_q = rest }))
      send_broken : {g : A} → s.main ≡ sending g → s.broken ≡ true → Move s (leave pipe_broken s)
      send_check :
          {g : A} → s.main ≡ sending g → s.broken ≡ false → Move s (record s { main = putting g })
      put :
          {g : A} (report : Bool)
          → s.main ≡ putting g
          → has_room depth s.write_q ≡ true
          → Move s (send report g s)
      -- The `finally` block.
      flag :
          {e : Ending}
          → s.main ≡ leaving flagging e
          → Move s (record s { stop_flag = true; main = leaving emptying_read e })
      drop_read :
          {e : Ending} {x : Item A} {rest : List (Item A)}
          → s.main ≡ leaving emptying_read e
          → s.read_q ≡ x ∷ rest
          → Move s (record s { read_q = rest })
      read_empty :
          {e : Ending}
          → s.main ≡ leaving emptying_read e
          → s.read_q ≡ []
          → Move s (record s { main = leaving emptying_detect e })
      drop_detect :
          {e : Ending} {x : Item (A × P)} {rest : List (Item (A × P))}
          → s.main ≡ leaving emptying_detect e
          → s.detect_q ≡ x ∷ rest
          → Move s (record s { detect_q = rest })
      detect_empty :
          {e : Ending}
          → s.main ≡ leaving emptying_detect e
          → s.detect_q ≡ []
          → Move s (record s { main = leaving stopping e })
      put_end :
          {e : Ending}
          → s.main ≡ leaving stopping e
          → has_room depth s.write_q ≡ true
          → Move s (record s { write_q = s.write_q ++ end ∷ []; main = leaving joining_writer e })
      join_writer :
          {e : Ending}
          → s.main ≡ leaving joining_writer e
          → s.writer ≡ Writer.gone
          → Move s (record s { main = leaving joining_detect e })
      join_detect :
          {e : Ending}
          → s.main ≡ leaving joining_detect e
          → s.detector ≡ Detector.gone
          → Move s (record s { main = leaving joining_reader e })
      join_reader :
          {e : Ending}
          → s.main ≡ leaving joining_reader e
          → s.reader ≡ Reader.gone
          → Move s (record s { main = leaving ended e })
      -- The writer; ffmpeg may go away at a write.
      fetch :
          {g : A} {rest : List (Item A)}
          → s.writer ≡ collecting
          → s.write_q ≡ item g ∷ rest
          → Move s (record s { write_q = rest; writer = writing g })
      fetch_end :
          {rest : List (Item A)}
          → s.writer ≡ collecting
          → s.write_q ≡ end ∷ rest
          → Move s (record s { write_q = rest; writer = Writer.gone })
      write :
          {g : A}
          → s.writer ≡ writing g
          → is_over s.main ≡ false
          → Move s (record s { written = s.written ++ g ∷ []; writer = collecting })
      break :
          {g : A}
          → s.writer ≡ writing g
          → is_over s.main ≡ false
          → Move s (record s { broken = true; writer = discarding })
      discard :
          {g : A} {rest : List (Item A)}
          → s.writer ≡ discarding
          → s.write_q ≡ item g ∷ rest
          → Move s (record s { write_q = rest })
      discard_end :
          {rest : List (Item A)}
          → s.writer ≡ discarding
          → s.write_q ≡ end ∷ rest
          → Move s (record s { write_q = rest; writer = Writer.gone })

    -- A join that gives up.
    pub data Timeout (s : Line A P) : Line A P → Type 0 where
      writer_late :
          {e : Ending}
          → s.main ≡ leaving joining_writer e
          → Timeout s (record s { main = leaving joining_detect e })
      detect_late :
          {e : Ending}
          → s.main ≡ leaving joining_detect e
          → Timeout s (record s { main = leaving joining_reader e })
      reader_late :
          {e : Ending}
          → s.main ≡ leaving joining_reader e
          → Timeout s (record s { main = leaving ended e })

    -- The states that a call can come to on the frames of a video, in the given number of steps.
    pub data Reach (frames : List A) : ℕ → Line A P → Type 0 where
      start : Reach frames 0 (opening frames)
      moved : {k : ℕ} {s t : Line A P} → Reach frames k s → Move s t → Reach frames (suc k) t
      late : {k : ℕ} {s t : Line A P} → Reach frames k s → Timeout s t → Reach frames (suc k) t
