-- ===== src/Server/Streaming/Order/Kept.antt =====
-- Every step keeps the order.
use face_swap_streamer_versi.Prelude.{ℕ, ◌≡◌, refl, sym, subst, true, List, ◌∷◌}
use face_swap_streamer_versi.Server.Worker.{Result}
use face_swap_streamer_versi.Server.Streaming.{Item, waiting, Line}
use face_swap_streamer_versi.Server.Streaming.Moves.{
  Move, read, read_end, read_stop, offer, close_read, take, take_raise, take_end, pass,
  close_detect, cancel, head, check_broken, check, get, get_raise, get_end, send_broken, send_check,
  put, flag, drop_read, read_empty, drop_detect, detect_empty, put_end, join_writer, join_detect,
  join_reader, fetch, fetch_end, write, break, discard, discard_end, Timeout, writer_late,
  detect_late, reader_late, Reach, start, moved, late, count_swaps, send,
}
use face_swap_streamer_versi.Server.Streaming.Intake.{
  Intake, reader-Intake, take-Intake, take_raise-Intake, take_end-Intake, pass-Intake,
  close_detect-Intake, get-Intake, end-Intake, read-Ahead, read_end-Ahead, offer-Ahead,
  close_read-Ahead,
}
use face_swap_streamer_versi.Server.Streaming.Outflow.{
  step-Outflow, get-Outflow, get_raise-Outflow, send_broken-Outflow, put-Outflow, put_end-Outflow,
}
use face_swap_streamer_versi.Server.Streaming.Outflow.Writes.{
  fetch-Outflow, fetch_end-Outflow, write-Outflow, break-Outflow, discard-Outflow,
  discard_end-Outflow,
}
use face_swap_streamer_versi.Server.Streaming.Order.{
  Justified, Ordered, opening-Ordered, Justified-break, Justified-raise,
}
use face_swap_streamer_versi.Server.Streaming.Order.Steps.{
  out_at, writer_at, reader_at, detector_at, loops, up_only, walk, drained, clean_up, writes,
}

module _ {A P : Type 0} (depth : ℕ) (detect : A → Result P) (swap : A → P → Result (A × ℕ))
    (frames : List A) where
  -- The abbreviated invariant.
  abbrev Holds : Line A P → Type 0
  Holds = Ordered detect swap frames

  pub got :
      {s : Line A P} {x : Item (A × P)} {rest : List (Item (A × P))}
      → Holds s
      → s.main ≡ waiting
      → s.detect_q ≡ x ∷ rest
      → Intake detect frames s.n s.source s.read_q (x ∷ rest) s.reader s.detector s.detector_error
  got {s} o m q =
      subst (λ z. Intake detect frames s.n s.source s.read_q z s.reader s.detector s.detector_error)
        q (o.up (loops detect swap frames o m tt))

  Move-Ordered : {s t : Line A P} → Move depth detect swap s t → Holds s → Holds t
  unfolding count_swaps send
  -- The reader.
  Move-Ordered (read r _ src) o =
      up_only detect swap frames o
        (λ l.
          reader-Intake detect frames (λ _. read-Ahead) (λ _ q. cc)
            (reader_at detect swap frames o r src l))
        o.just
  Move-Ordered (read_end r _ src) o =
      up_only detect swap frames o
        (λ l.
          reader-Intake detect frames (λ _. read_end-Ahead) (λ _ _. src)
            (reader_at detect swap frames o r refl l))
        o.just
  Move-Ordered (read_stop r stop) o =
      up_only detect swap frames o (λ l. absurd (cc (o.unstopped l, stop))) o.just
  Move-Ordered (offer r _) o =
      up_only detect swap frames o
        (λ l.
          reader-Intake detect frames (λ _. offer-Ahead) (λ _ q. cc)
            (reader_at detect swap frames o r refl l))
        o.just
  Move-Ordered (close_read r _) o =
      up_only detect swap frames o
        (λ l.
          reader-Intake detect frames (λ _. close_read-Ahead) (λ h _. h refl)
            (reader_at detect swap frames o r refl l))
        o.just
  -- The detecting thread.
  Move-Ordered (take d q found) o =
      up_only detect swap frames o
        (λ l. take-Intake detect frames found (detector_at detect swap frames o d q l)) o.just
  Move-Ordered {s} (take_raise d q _) o =
      up_only detect swap frames o
        (λ l. take_raise-Intake detect frames (detector_at detect swap frames o d q l))
        (Justified-raise detect swap frames s.main s.n s.broken s.detector_error o.just)
  Move-Ordered (take_end d q) o =
      up_only detect swap frames o
        (λ l. take_end-Intake detect frames (detector_at detect swap frames o d q l)) o.just
  Move-Ordered (pass d _) o =
      up_only detect swap frames o
        (λ l. pass-Intake detect frames (detector_at detect swap frames o d refl l)) o.just
  Move-Ordered (close_detect d _) o =
      up_only detect swap frames o
        (λ l. close_detect-Intake detect frames (detector_at detect swap frames o d refl l)) o.just
  -- The loop of the caller.
  Move-Ordered (cancel m stop) o = absurd (cc (o.unstopped (loops detect swap frames o m tt), stop))
  Move-Ordered (head m _) o =
      walk detect swap frames o m (step-Outflow detect swap frames refl refl (λ u. u)) (λ l. l) tt
  Move-Ordered (check_broken m b) o =
      walk detect swap frames o m (step-Outflow detect swap frames refl refl (λ u. tt))
        (λ l. absurd l) b
  Move-Ordered (check m _) o =
      walk detect swap frames o m (step-Outflow detect swap frames refl refl (λ u. u)) (λ l. l) tt
  Move-Ordered {s} (get m q made) o =
      let (up, at, found) = get-Intake detect frames (got o m q) in
      record {
        up = λ _. up;
        out = get-Outflow detect swap frames at found made (out_at detect swap frames o m);
        just = tt;
        unstopped = λ _. o.unstopped (loops detect swap frames o m tt);
      }
  Move-Ordered {s} (get_raise {frame} {picks} m q made) o =
      let (up, at, found) = get-Intake detect frames (got o m q) in
      record {
        up = λ l. absurd l;
        out = get_raise-Outflow detect swap frames at (out_at detect swap frames o m);
        just = (s.n, frame, picks, at, found, made);
        unstopped = λ l. absurd l;
      }
  Move-Ordered {s} (get_end m q) o = record {
    up = λ l. absurd l;
    out = step-Outflow detect swap frames refl refl (λ u. tt) (out_at detect swap frames o m);
    just = (end-Intake detect frames (got o m q)).1;
    unstopped = λ l. absurd l;
  }
  Move-Ordered {s} (send_broken m b) o = record {
    up = λ l. absurd l;
    out = send_broken-Outflow detect swap frames b (out_at detect swap frames o m);
    just = b;
    unstopped = λ l. absurd l;
  }
  Move-Ordered (send_check m _) o =
      walk detect swap frames o m (step-Outflow detect swap frames refl refl (λ u. u)) (λ l. l) tt
  Move-Ordered (put report m _) o = record {
    up = λ _. o.up (loops detect swap frames o m tt);
    out = put-Outflow detect swap frames (out_at detect swap frames o m);
    just = tt;
    unstopped = λ _. o.unstopped (loops detect swap frames o m tt);
  }
  -- The `finally` block.
  Move-Ordered {s} (flag m) o =
      clean_up detect swap frames o m (step-Outflow detect swap frames refl refl (λ u. u)) s.read_q
        s.detect_q true
  Move-Ordered {s} (drop_read {rest = rest} m _) o = drained detect swap frames o m rest s.detect_q
  Move-Ordered {s} (read_empty m _) o =
      clean_up detect swap frames o m (step-Outflow detect swap frames refl refl (λ u. u)) s.read_q
        s.detect_q s.stop_flag
  Move-Ordered {s} (drop_detect {rest = rest} m _) o = drained detect swap frames o m s.read_q rest
  Move-Ordered {s} (detect_empty m _) o =
      clean_up detect swap frames o m (step-Outflow detect swap frames refl refl (λ u. u)) s.read_q
        s.detect_q s.stop_flag
  Move-Ordered {s} (put_end m _) o = record {
    up = λ l. absurd l;
    out = put_end-Outflow detect swap frames (out_at detect swap frames o m);
    just = subst (λ x. Justified detect swap frames x s.n s.broken s.detector_error) m o.just;
    unstopped = λ l. absurd l;
  }
  Move-Ordered {s} (join_writer m _) o =
      clean_up detect swap frames o m (step-Outflow detect swap frames refl refl (λ u. u)) s.read_q
        s.detect_q s.stop_flag
  Move-Ordered {s} (join_detect m _) o =
      clean_up detect swap frames o m (step-Outflow detect swap frames refl refl (λ u. u)) s.read_q
        s.detect_q s.stop_flag
  Move-Ordered {s} (join_reader m _) o =
      clean_up detect swap frames o m (step-Outflow detect swap frames refl refl (λ u. u)) s.read_q
        s.detect_q s.stop_flag
  -- The writer.
  Move-Ordered (fetch w q) o =
      writes detect swap frames o
        (fetch-Outflow detect swap frames (writer_at detect swap frames o w q)) o.just
  Move-Ordered (fetch_end w q) o =
      writes detect swap frames o
        (fetch_end-Outflow detect swap frames (writer_at detect swap frames o w q)) o.just
  Move-Ordered (write w _) o =
      writes detect swap frames o
        (write-Outflow detect swap frames (writer_at detect swap frames o w refl)) o.just
  Move-Ordered {s} (break w _) o =
      writes detect swap frames o
        (break-Outflow detect swap frames (writer_at detect swap frames o w refl))
        (Justified-break detect swap frames s.main s.n s.broken s.detector_error o.just)
  Move-Ordered {s} (discard {rest = rest} w q) o =
      subst (λ w'. Holds (record s { write_q = rest; writer = w' })) (sym w)
        (writes detect swap frames o
          (discard-Outflow detect swap frames (writer_at detect swap frames o w q)) o.just)
  Move-Ordered (discard_end w q) o =
      writes detect swap frames o
        (discard_end-Outflow detect swap frames (writer_at detect swap frames o w q)) o.just

  Timeout-Ordered : {s t : Line A P} → Timeout depth detect swap s t → Holds s → Holds t
  Timeout-Ordered {s} (writer_late m) o =
      clean_up detect swap frames o m (step-Outflow detect swap frames refl refl (λ u. u)) s.read_q
        s.detect_q s.stop_flag
  Timeout-Ordered {s} (detect_late m) o =
      clean_up detect swap frames o m (step-Outflow detect swap frames refl refl (λ u. u)) s.read_q
        s.detect_q s.stop_flag
  Timeout-Ordered {s} (reader_late m) o =
      clean_up detect swap frames o m (step-Outflow detect swap frames refl refl (λ u. u)) s.read_q
        s.detect_q s.stop_flag

  pub Reach-Ordered :
      {k : ℕ} {s : Line A P} → Reach depth detect swap frames k s → Ordered detect swap frames s
  Reach-Ordered start = opening-Ordered detect swap frames
  Reach-Ordered (moved r m) = Move-Ordered m (Reach-Ordered r)
  Reach-Ordered (late r t) = Timeout-Ordered t (Reach-Ordered r)
