-- ===== src/Server/Streaming/Order/Steps.antt =====
-- What a step of one thread leaves of the order, by the parts of the state that it changes.
use face_swap_streamer_versi.Prelude.{ℕ, ◌≡◌, sym, subst, Bool, List}
use face_swap_streamer_versi.Server.Worker.{Result}
use face_swap_streamer_versi.Server.Streaming.{
  Item, Reader, Detector, Writer, Ending, Phase, Main, leaving, Line,
}
use face_swap_streamer_versi.Server.Streaming.Intake.{Intake}
use face_swap_streamer_versi.Server.Streaming.Outflow.{Outflow}
use face_swap_streamer_versi.Server.Streaming.Order.{InLoop, Justified, Ordered}

module _ {A P : Type 0} (detect : A → Result P) (swap : A → P → Result (A × ℕ))
    (frames : List A) where
  module _ {s : Line A P} (o : Ordered detect swap frames s) where
    -- What is known of a part of the state, by the value of that part.
    abbrev pub OutAt : Main A → Type 0
    OutAt m = Outflow detect swap frames s.n s.swap_count s.written s.write_q m s.writer s.broken

    abbrev pub WriterAt : Writer A → List (Item A) → Type 0
    WriterAt w q = Outflow detect swap frames s.n s.swap_count s.written q s.main w s.broken

    abbrev pub ReaderAt : Reader A → List A → Type 0
    ReaderAt r source =
        Intake detect frames s.n source s.read_q s.detect_q r s.detector s.detector_error

    abbrev pub DetectorAt : Detector A P → List (Item A) → Type 0
    DetectorAt d q = Intake detect frames s.n s.source q s.detect_q s.reader d s.detector_error

    pub out_at : {m : Main A} → s.main ≡ m → OutAt m
    out_at e = subst OutAt e o.out

    pub writer_at : {w : Writer A} {q : List (Item A)} → s.writer ≡ w → s.write_q ≡ q → WriterAt w q
    writer_at {w} e e' = subst (WriterAt w) e' (subst (λ x. WriterAt x s.write_q) e o.out)

    pub reader_at :
        {r : Reader A} {source : List A}
        → s.reader ≡ r
        → s.source ≡ source
        → InLoop s.main
        → ReaderAt r source
    reader_at {r} e e' l = subst (ReaderAt r) e' (subst (λ x. ReaderAt x s.source) e (o.up l))

    pub detector_at :
        {d : Detector A P} {q : List (Item A)}
        → s.detector ≡ d
        → s.read_q ≡ q
        → InLoop s.main
        → DetectorAt d q
    detector_at {d} e e' l = subst (DetectorAt d) e' (subst (λ x. DetectorAt x s.read_q) e (o.up l))

    pub loops : {m : Main A} → s.main ≡ m → InLoop m → InLoop s.main
    loops e l = subst InLoop (sym e) l

    -- A step of the reader or of the detecting thread.
    pub up_only :
        {source : List A} {read_q : List (Item A)} {detect_q : List (Item (A × P))} {r : Reader A}
        {d : Detector A P} {error : Bool}
        → (InLoop s.main → Intake detect frames s.n source read_q detect_q r d error)
        → Justified detect swap frames s.main s.n s.broken error
        → Ordered detect swap frames (record s {
          source = source;
          read_q = read_q;
          detect_q = detect_q;
          reader = r;
          detector = d;
          detector_error = error;
        })
    up_only up just = record { up = up; out = o.out; just = just; unstopped = o.unstopped }

    -- A step of the caller that moves no frame.
    pub walk :
        {m m' : Main A}
        → s.main ≡ m
        → (OutAt m → OutAt m')
        → (InLoop m' → InLoop m)
        → Justified detect swap frames m' s.n s.broken s.detector_error
        → Ordered detect swap frames (record s { main = m' })
    walk e step l just = record {
      up = λ l'. o.up (loops e (l l'));
      out = step (out_at e);
      just = just;
      unstopped = λ l'. o.unstopped (loops e (l l'));
    }

    -- A statement of the `finally` block, and what it does to the queues of the threads.
    pub clean_up :
        {p p' : Phase} {e : Ending}
        → s.main ≡ leaving p e
        → (OutAt (leaving p e) → OutAt (leaving p' e))
        → (read_q : List (Item A)) (detect_q : List (Item (A × P))) (stop_flag : Bool)
        → Ordered detect swap frames (record s {
          main = leaving p' e;
          read_q = read_q;
          detect_q = detect_q;
          stop_flag = stop_flag;
        })
    clean_up {p} {p'} {e} at step read_q detect_q stop_flag = record {
      up = λ l. absurd l;
      out = step (out_at at);
      just = subst (λ m. Justified detect swap frames m s.n s.broken s.detector_error) at o.just;
      unstopped = λ l. absurd l;
    }

    -- The draining of the queues.
    pub drained :
        {p : Phase} {e : Ending}
        → s.main ≡ leaving p e
        → (read_q : List (Item A)) (detect_q : List (Item (A × P)))
        → Ordered detect swap frames (record s { read_q = read_q; detect_q = detect_q })
    drained {p} {e} at read_q detect_q = record {
      up = λ l. absurd (subst InLoop at l);
      out = o.out;
      just = o.just;
      unstopped = λ l. absurd (subst InLoop at l);
    }

    -- A step of the writer.
    pub writes :
        {written : List A} {write_q : List (Item A)} {w : Writer A} {broken : Bool}
        → Outflow detect swap frames s.n s.swap_count written write_q s.main w broken
        → Justified detect swap frames s.main s.n broken s.detector_error
        → Ordered detect swap frames
            (record s { written = written; write_q = write_q; writer = w; broken = broken })
    writes out just = record { up = o.up; out = out; just = just; unstopped = o.unstopped }
