-- ===== src/Server/Streaming/Waits/Progress.antt =====
-- Whether some thread of run_streaming can go on.
use face_swap_streamer_versi.Prelude.{
  ℕ, suc, ◌≤◌, ◌≡◌, ◌≢◌, ◌⊎◌, inl, inr, refl, ap, ap₂, sym, subst, ◌∙◌, true, false, ◌&&◌, List, [],
  length, arith, Bool-cases, List-cases, String,
}
use face_swap_streamer_versi.Server.Worker.{Result, ok, raise}
use face_swap_streamer_versi.Server.Streaming.{
  item, end, Reader, reading, offering, Detector, taking, passing, Writer, collecting, writing,
  discarding, Ending, finished, flagging, emptying_read, emptying_detect, stopping, joining_writer,
  joining_detect, joining_reader, ended, Main, heading, checking, waiting, sending, putting,
  leaving, Line,
}
use face_swap_streamer_versi.Server.Streaming.Moves.{
  Move, read, read_end, read_stop, offer, close_read, take, take_raise, take_end, pass,
  close_detect, cancel, head, check_broken, check, get, get_raise, get_end, send_broken, send_check,
  put, flag, drop_read, read_empty, drop_detect, detect_empty, put_end, join_writer, join_detect,
  join_reader, fetch, fetch_end, write, discard, discard_end, Reach, has_room,
}
use face_swap_streamer_versi.Server.Streaming.Moves.{is_over}
use face_swap_streamer_versi.Server.Streaming.Shape.{queue-empty}
use face_swap_streamer_versi.Server.Streaming.Intake.{reader_gone, detector_gone, listening}
use face_swap_streamer_versi.Server.Streaming.Outflow.{writer_alive, past_end}
use face_swap_streamer_versi.Server.Streaming.Order.{InLoop, Ordered}
use face_swap_streamer_versi.Server.Streaming.Order.Kept.{Reach-Ordered}
use face_swap_streamer_versi.Server.Streaming.Waits.{
  read_load, detect_load, Late, reads, detects, Answered, Heard, Settled,
}
use face_swap_streamer_versi.Server.Streaming.Waits.Settles.{Reach-Settled}

Result-split : {P : Type 0} (r : Result P) → ((p : P) × (r ≡ ok p)) ⊎ ((e : String) × (r ≡ raise e))
Result-split (ok p) = inl (p, refl)
Result-split (raise e) = inr (e, refl)

room :
    {A : Type 0} (depth : ℕ) (q : List A) (n : ℕ)
    → (depth ≡ 0) ⊎ (n ≤ depth)
    → suc (length q) ≤ n
    → has_room depth q ≡ true
room depth q n (inl none_set) short = ground arith
room depth q n (inr deep) short = ground arith

reader_gone-cases : {A : Type 0} (r : Reader A) → (r ≡ Reader.gone) ⊎ (1 ≤ read_load r)
reader_gone-cases Reader.gone = inl refl
reader_gone-cases reading = inr (omega arith)
reader_gone-cases (offering f) = inr (omega arith)
reader_gone-cases Reader.closing = inr (omega arith)

detector_gone-cases : {A P : Type 0} (d : Detector A P) → (d ≡ Detector.gone) ⊎ (1 ≤ detect_load d)
detector_gone-cases Detector.gone = inl refl
detector_gone-cases taking = inr (omega arith)
detector_gone-cases (passing f p) = inr (omega arith)
detector_gone-cases Detector.closing = inr (omega arith)

module _ {A P : Type 0} (depth : ℕ) (detect : A → Result P) (swap : A → P → Result (A × ℕ)) where
  -- A step that is no timeout.
  abbrev pub CanMove : Line A P → Type 0
  CanMove s = (t : Line A P) × Move depth detect swap s t

  module _ (s : Line A P) where
    reader-moves :
        (r : Reader A)
        → s.reader ≡ r
        → has_room depth s.read_q ≡ true
        → CanMove s ⊎ (r ≡ Reader.gone)
    reader-moves reading e fits = elim (Bool-cases s.stop_flag) [
      | inl stop ↦ inl (_, read_stop e stop)
      | inr go ↦ elim (List-cases s.source) [
        | inl over ↦ inl (_, read_end e go over)
        | inr (frame, rest, more) ↦ inl (_, read e go more)
      ]
    ]
    reader-moves (offering f) e fits = inl (_, offer e fits)
    reader-moves Reader.closing e fits = inl (_, close_read e fits)
    reader-moves Reader.gone e fits = inr refl

    detector-moves :
        (d : Detector A P)
        → s.detector ≡ d
        → has_room depth s.detect_q ≡ true
        → CanMove s ⊎ (d ≡ Detector.gone) ⊎ (d ≡ taking) × (s.read_q ≡ [])
    detector-moves taking e fits = elim (List-cases s.read_q) [
      | inl nothing ↦ inr (inr (refl, nothing))
      | inr (item f, rest, q) ↦ elim (Result-split (detect f)) [
        | inl (p, found) ↦ inl (_, take e q found)
        | inr (text, bad) ↦ inl (_, take_raise e q bad)
      ]
      | inr (end, rest, q) ↦ inl (_, take_end e q)
    ]
    detector-moves (passing f p) e fits = inl (_, pass e fits)
    detector-moves Detector.closing e fits = inl (_, close_detect e fits)
    detector-moves Detector.gone e fits = inr (inl refl)

    writer-moves :
        (w : Writer A)
        → s.writer ≡ w
        → is_over s.main ≡ false
        → CanMove s ⊎ (w ≡ Writer.gone) ⊎ (writer_alive w ≡ true) × (s.write_q ≡ [])
    writer-moves collecting e on = elim (List-cases s.write_q) [
      | inl nothing ↦ inr (inr (refl, nothing))
      | inr (item g, rest, q) ↦ inl (_, fetch e q)
      | inr (end, rest, q) ↦ inl (_, fetch_end e q)
    ]
    writer-moves (writing g) e on = inl (_, write e on)
    writer-moves discarding e on = elim (List-cases s.write_q) [
      | inl nothing ↦ inr (inr (refl, nothing))
      | inr (item g, rest, q) ↦ inl (_, discard e q)
      | inr (end, rest, q) ↦ inl (_, discard_end e q)
    ]
    writer-moves Writer.gone e on = inr (inl refl)

    -- The detecting thread waits for ever, since the caller has taken its END out of the queue.
    pub record Stranded : Type 0 where
      pub ending : Ending
      pub joining : s.main ≡ leaving joining_detect ending
      pub early : ending ≢ finished
      pub waits : s.detector ≡ taking
      pub nothing : s.read_q ≡ []
      pub no_reader : s.reader ≡ Reader.gone

    module _ {frames : List A} (o : Ordered detect swap frames s) (w : Settled s)
        (deep : (depth ≡ 0) ⊎ (3 ≤ depth)) where
      -- The caller waits for a frame.
      waiting-moves : s.main ≡ waiting → CanMove s
      waiting-moves m = elim (List-cases s.detect_q) [
        | inr (item (f, p), rest, q) ↦ elim (Result-split (swap f p)) [
          | inl ((g, k), made) ↦ (_, get m q made)
          | inr (text, bad) ↦ (_, get_raise m q bad)
        ]
        | inr (end, rest, q) ↦ (_, get_end m q)
        | inl empty ↦
            let i = o.up (subst InLoop (sym m) tt) in
            elim (detector-moves s.detector refl
              (room depth s.detect_q 3 deep (omega (arith, ap length empty)))) [
                | inl step ↦ step
                | inr (inl gone) ↦
                    absurd
                      (cc ((queue-empty i.found _ (sym i.shape ∙ empty)).1, ap detector_gone gone))
                | inr (inr (idle, nothing)) ↦
                    elim (reader-moves s.reader refl
                      (room depth s.read_q 3 deep (omega (arith, ap length nothing)))) [
                        | inl step ↦ step
                        | inr gone ↦
                            let a = i.ahead (i.healthy (ap listening idle)) in
                            absurd (
                              cc (
                                (queue-empty a.queued _ (sym a.shape ∙ nothing)).1,
                                ap₂ (λ d r. listening d && reader_gone r) idle gone,
                              ))
                      ]
              ]
      ]

      -- The caller puts into the write queue, before END.
      full-moves :
          is_over s.main ≡ false
          → past_end s.main ≡ false
          → has_room depth s.write_q ≡ false
          → CanMove s
      full-moves on before full = elim (writer-moves s.writer refl on) [
        | inl step ↦ step
        | inr (inl gone) ↦ absurd (cc ((o.out.left (ap writer_alive gone)).0, before))
        | inr (inr (alive, nothing)) ↦
            absurd (cc (room depth s.write_q 3 deep (omega (arith, ap length nothing)), full))
      ]

      join_writer-moves :
          {e : Ending} → s.main ≡ leaving joining_writer e → is_over s.main ≡ false → CanMove s
      join_writer-moves m on = elim (writer-moves s.writer refl on) [
        | inl step ↦ step
        | inr (inl gone) ↦ (_, join_writer m gone)
        | inr (inr (alive, nothing)) ↦ absurd (
            cc (
              (queue-empty o.out.queued _ (sym o.out.shape ∙ nothing)).1,
              ap₂ (λ x y. past_end x && y) m alive,
            ))
      ]

      join_detect-moves : {e : Ending} → s.main ≡ leaving joining_detect e → CanMove s ⊎ Stranded
      join_detect-moves {e} m = elim (detector_gone-cases s.detector) [
        | inl gone ↦ inl (_, join_detect m gone)
        | inr load ↦
            let late =
              subst (λ x. Late x s.stop_flag (reads s) (detects s) (length s.detect_q)) m
                w.settles in
            elim (detector-moves s.detector refl
              (room depth s.detect_q 3 deep (omega (arith, late.2, load)))) [
                | inl step ↦ inl step
                | inr (inl gone) ↦ inl (_, join_detect m gone)
                | inr (inr (idle, nothing)) ↦
                    elim (reader-moves s.reader refl
                      (room depth s.read_q 3 deep (omega (arith, ap length nothing)))) [
                        | inl step ↦ inl step
                        | inr gone ↦ inr (record {
                          ending = e;
                          joining = m;
                          early = λ fin. cc (
                            subst (λ x. Heard x s.detector) fin
                                (subst (λ x. Answered x s.detector) m w.answered),
                            ap detector_gone idle,
                          );
                          waits = idle;
                          nothing = nothing;
                          no_reader = gone;
                        })
                      ]
              ]
      ]

      join_reader-moves : {e : Ending} → s.main ≡ leaving joining_reader e → CanMove s
      join_reader-moves m = elim (reader_gone-cases s.reader) [
        | inl gone ↦ (_, join_reader m gone)
        | inr load ↦
            let late =
              subst (λ x. Late x s.stop_flag (reads s) (detects s) (length s.detect_q)) m
                w.settles in
            elim (reader-moves s.reader refl
              (room depth s.read_q 3 deep (omega (arith, late.1, load)))) [
                | inl step ↦ step
                | inr gone ↦ (_, join_reader m gone)
              ]
      ]

      loop-moves : (m : Main A) → s.main ≡ m → is_over m ≡ false → CanMove s ⊎ Stranded
      loop-moves heading m on = elim (Bool-cases s.stop_flag) [
        | inl stop ↦ inl (_, cancel m stop)
        | inr go ↦ inl (_, head m go)
      ]
      loop-moves checking m on = elim (Bool-cases s.broken) [
        | inl b ↦ inl (_, check_broken m b)
        | inr b ↦ inl (_, check m b)
      ]
      loop-moves waiting m on = inl (waiting-moves m)
      loop-moves (sending g) m on = elim (Bool-cases s.broken) [
        | inl b ↦ inl (_, send_broken m b)
        | inr b ↦ inl (_, send_check m b)
      ]
      loop-moves (putting g) m on = elim (Bool-cases (has_room depth s.write_q)) [
        | inl fits ↦ inl (_, put false m fits)
        | inr full ↦ inl (full-moves (ap is_over m) (ap past_end m) full)
      ]
      loop-moves (leaving flagging e) m on = inl (_, flag m)
      loop-moves (leaving emptying_read e) m on = elim (List-cases s.read_q) [
        | inl nothing ↦ inl (_, read_empty m nothing)
        | inr (x, rest, q) ↦ inl (_, drop_read m q)
      ]
      loop-moves (leaving emptying_detect e) m on = elim (List-cases s.detect_q) [
        | inl nothing ↦ inl (_, detect_empty m nothing)
        | inr (x, rest, q) ↦ inl (_, drop_detect m q)
      ]
      loop-moves (leaving stopping e) m on = elim (Bool-cases (has_room depth s.write_q)) [
        | inl fits ↦ inl (_, put_end m fits)
        | inr full ↦ inl (full-moves (ap is_over m) (ap past_end m) full)
      ]
      loop-moves (leaving joining_writer e) m on = inl (join_writer-moves m (ap is_over m))
      loop-moves (leaving joining_detect e) m on = join_detect-moves m
      loop-moves (leaving joining_reader e) m on = inl (join_reader-moves m)
      loop-moves (leaving ended e) m on = absurd (cc)

  -- With queues of unbounded size or of at least 3 entries: in any state that a call comes to
  -- before its `finally` block has ended, some thread can take a step that is no timeout, except in
  -- one case: the loop was not left by END, and the caller joins a detecting thread that waits at
  -- an empty queue of a reader that has returned.
  pub streaming_progress :
      {frames : List A} {k : ℕ} {s : Line A P}
      → (depth ≡ 0) ⊎ (3 ≤ depth)
      → Reach depth detect swap frames k s
      → is_over s.main ≡ false
      → CanMove s ⊎ Stranded s
  streaming_progress {s = s} deep r on =
      loop-moves s (Reach-Ordered depth detect swap _ r) (Reach-Settled depth detect swap _ r) deep
        s.main refl on
