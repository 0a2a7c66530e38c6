-- ===== src/Server/Streaming/Waits/Settles.antt =====
-- Every step keeps the bounds on what is to come.
use face_swap_streamer_versi.Prelude.{
  ℕ, refl, subst, ap, ◌≤◌, length, sum_of, sum_of-snoc, length-append, arith, List, [], ◌∷◌,
}
use face_swap_streamer_versi.Server.Worker.{Result}
use face_swap_streamer_versi.Server.Streaming.{
  item, end, Reader, reading, offering, Detector, taking, passing, Main, Line, opening,
}
use face_swap_streamer_versi.Server.Streaming.Moves.{
  Move, read, read_end, read_stop, offer, close_read, take, take_raise, take_end, pass,
  close_detect, cancel, head, check_broken, check, get, get_raise, get_end, send_broken, send_check,
  put, flag, drop_read, read_empty, drop_detect, detect_empty, put_end, join_writer, join_detect,
  join_reader, fetch, fetch_end, write, break, discard, discard_end, Timeout, writer_late,
  detect_late, reader_late, Reach, start, moved, late, count_swaps, send,
}
use face_swap_streamer_versi.Server.Streaming.Intake.{detector_gone}
use face_swap_streamer_versi.Server.Streaming.Order.{Ordered}
use face_swap_streamer_versi.Server.Streaming.Intake.{end-Intake}
use face_swap_streamer_versi.Server.Streaming.Order.Kept.{got, Reach-Ordered}
use face_swap_streamer_versi.Server.Streaming.Waits.{
  is_frame, read_load, offers, Late, Late-step, detect_load, reads, detects, Answered,
  Answered-alive, Settled,
}

module _ {A : Type 0} where
  read_load-le : (r : Reader A) → read_load r ≤ 2
  read_load-le reading = omega arith
  read_load-le (offering f) = omega arith
  read_load-le Reader.closing = omega arith
  read_load-le Reader.gone = omega arith

  offers-le : (r : Reader A) → offers r ≤ 1
  offers-le reading = omega arith
  offers-le (offering f) = omega arith
  offers-le Reader.closing = omega arith
  offers-le Reader.gone = omega arith

module _ {A P : Type 0} (depth : ℕ) (detect : A → Result P) (swap : A → P → Result (A × ℕ))
    (frames : List A) where
  detect_load-le : (d : Detector A P) → detect_load d ≤ 2
  detect_load-le taking = omega arith
  detect_load-le (passing f p) = omega arith
  detect_load-le Detector.closing = omega arith
  detect_load-le Detector.gone = omega arith

  abbrev Late-of : Line A P → Main A → Type 0
  Late-of s m = Late m s.stop_flag (reads s) (detects s) (length s.detect_q)

  Move-Settled :
      {s t : Line A P}
      → Move depth detect swap s t
      → Ordered detect swap frames s
      → Settled s
      → Settled t
  unfolding count_swaps send
  Move-Settled {s} (read r go _) o w = record {
    settles =
        Late-step s.main s.stop_flag (reads s) (detects s) (length s.detect_q) _ _ _
          (λ stop. absurd (cc (stop, go))) w.settles;
    answered = w.answered;
  }
  Move-Settled {s} (read_end r go _) o w = record {
    settles =
        Late-step s.main s.stop_flag (reads s) (detects s) (length s.detect_q) _ _ _
          (λ stop. absurd (cc (stop, go))) w.settles;
    answered = w.answered;
  }
  Move-Settled {s} (read_stop r _) o w = record {
    settles =
        Late-step s.main s.stop_flag (reads s) (detects s) (length s.detect_q) _ _ _
          (λ stop. (
            omega (arith, ap read_load r, ap offers r),
            omega (arith, ap read_load r, ap offers r),
            omega (arith, ap read_load r, ap offers r),
          ))
          w.settles;
    answered = w.answered;
  }
  Move-Settled {s} (offer {frame} r _) o w = record {
    settles =
        Late-step s.main s.stop_flag (reads s) (detects s) (length s.detect_q) _ _ _
          (λ stop. (
            omega (
              arith,
              ap read_load r,
              ap offers r,
              sum_of-snoc is_frame s.read_q (item frame),
              length-append s.read_q (item frame ∷ []),
            ),
            omega (
              arith,
              ap read_load r,
              ap offers r,
              sum_of-snoc is_frame s.read_q (item frame),
              length-append s.read_q (item frame ∷ []),
            ),
            omega (
              arith,
              ap read_load r,
              ap offers r,
              sum_of-snoc is_frame s.read_q (item frame),
              length-append s.read_q (item frame ∷ []),
            ),
          ))
          w.settles;
    answered = w.answered;
  }
  Move-Settled {s} (close_read r _) o w = record {
    settles =
        Late-step s.main s.stop_flag (reads s) (detects s) (length s.detect_q) _ _ _
          (λ stop. (
            omega (
              arith,
              ap read_load r,
              ap offers r,
              sum_of-snoc is_frame s.read_q end,
              length-append s.read_q (end ∷ []),
            ),
            omega (
              arith,
              ap read_load r,
              ap offers r,
              sum_of-snoc is_frame s.read_q end,
              length-append s.read_q (end ∷ []),
            ),
            omega (
              arith,
              ap read_load r,
              ap offers r,
              sum_of-snoc is_frame s.read_q end,
              length-append s.read_q (end ∷ []),
            ),
          ))
          w.settles;
    answered = w.answered;
  }
  Move-Settled {s} (take d q _) o w = record {
    settles =
        Late-step s.main s.stop_flag (reads s) (detects s) (length s.detect_q) _ _ _
          (λ stop. (
            omega (arith, ap detect_load d, ap (sum_of is_frame) q, ap length q),
            omega (arith, ap detect_load d, ap (sum_of is_frame) q, ap length q),
            omega (arith, ap detect_load d, ap (sum_of is_frame) q, ap length q),
          ))
          w.settles;
    answered = Answered-alive s.main s.detector _ (ap detector_gone d) w.answered;
  }
  Move-Settled {s} (take_raise d q _) o w = record {
    settles =
        Late-step s.main s.stop_flag (reads s) (detects s) (length s.detect_q) _ _ _
          (λ stop. (
            omega (arith, ap detect_load d, ap (sum_of is_frame) q, ap length q),
            omega (arith, ap detect_load d, ap (sum_of is_frame) q, ap length q),
            omega (arith, ap detect_load d, ap (sum_of is_frame) q, ap length q),
          ))
          w.settles;
    answered = Answered-alive s.main s.detector _ (ap detector_gone d) w.answered;
  }
  Move-Settled {s} (take_end d q) o w = record {
    settles =
        Late-step s.main s.stop_flag (reads s) (detects s) (length s.detect_q) _ _ _
          (λ stop. (
            omega (arith, ap detect_load d, ap (sum_of is_frame) q, ap length q),
            omega (arith, ap detect_load d, ap (sum_of is_frame) q, ap length q),
            omega (arith, ap detect_load d, ap (sum_of is_frame) q, ap length q),
          ))
          w.settles;
    answered = Answered-alive s.main s.detector _ (ap detector_gone d) w.answered;
  }
  Move-Settled {s} (pass d _) o w = record {
    settles =
        Late-step s.main s.stop_flag (reads s) (detects s) (length s.detect_q) _ _ _
          (λ stop. (
            omega (arith, ap detect_load d, length-append s.detect_q (item _ ∷ [])),
            omega (arith, ap detect_load d, length-append s.detect_q (item _ ∷ [])),
            omega (arith, ap detect_load d, length-append s.detect_q (item _ ∷ [])),
          ))
          w.settles;
    answered = Answered-alive s.main s.detector _ (ap detector_gone d) w.answered;
  }
  Move-Settled {s} (close_detect d _) o w = record {
    settles =
        Late-step s.main s.stop_flag (reads s) (detects s) (length s.detect_q) _ _ _
          (λ stop. (
            omega (arith, ap detect_load d, length-append s.detect_q (end ∷ [])),
            omega (arith, ap detect_load d, length-append s.detect_q (end ∷ [])),
            omega (arith, ap detect_load d, length-append s.detect_q (end ∷ [])),
          ))
          w.settles;
    answered = Answered-alive s.main s.detector _ (ap detector_gone d) w.answered;
  }
  Move-Settled (cancel _ _) o w = record { settles = tt; answered = tt }
  Move-Settled (head _ _) o w = record { settles = tt; answered = tt }
  Move-Settled (check_broken _ _) o w = record { settles = tt; answered = tt }
  Move-Settled (check _ _) o w = record { settles = tt; answered = tt }
  Move-Settled (get _ _ _) o w = record { settles = tt; answered = tt }
  Move-Settled (get_raise _ _ _) o w = record { settles = tt; answered = tt }
  Move-Settled (get_end m q) o w = record {
    settles = tt;
    answered = (end-Intake detect frames (got depth detect swap frames o m q)).0;
  }
  Move-Settled (send_broken _ _) o w = record { settles = tt; answered = tt }
  Move-Settled (send_check _ _) o w = record { settles = tt; answered = tt }
  Move-Settled (put _ _ _) o w = record { settles = tt; answered = tt }
  Move-Settled {s} (flag m) o w = record {
    settles = refl;
    answered = subst (λ x. Answered x s.detector) m w.answered;
  }
  Move-Settled {s} (drop_read m q) o w = record {
    settles =
        Late-step s.main s.stop_flag (reads s) (detects s) (length s.detect_q) _ _ _
          (λ stop. (
            omega (arith, ap (sum_of is_frame) q, ap length q),
            omega (arith, ap (sum_of is_frame) q, ap length q),
            omega (arith, ap (sum_of is_frame) q, ap length q),
          ))
          w.settles;
    answered = w.answered;
  }
  Move-Settled {s} (read_empty m q) o w = record {
    settles = (
      subst (Late-of s) m w.settles,
      omega (arith, ap length q, read_load-le s.reader),
      omega (arith, ap (sum_of is_frame) q, offers-le s.reader, detect_load-le s.detector),
    );
    answered = subst (λ x. Answered x s.detector) m w.answered;
  }
  Move-Settled {s} (drop_detect m q) o w = record {
    settles =
        Late-step s.main s.stop_flag (reads s) (detects s) (length s.detect_q) _ _ _
          (λ stop.
            (omega (arith, ap length q), omega (arith, ap length q), omega (arith, ap length q)))
          w.settles;
    answered = w.answered;
  }
  Move-Settled {s} (detect_empty m q) o w =
      let (stop, r, d) = subst (Late-of s) m w.settles in
      record {
        settles = (stop, r, omega (arith, ap length q));
        answered = subst (λ x. Answered x s.detector) m w.answered;
      }
  Move-Settled {s} (put_end m _) o w = record {
    settles = subst (Late-of s) m w.settles;
    answered = subst (λ x. Answered x s.detector) m w.answered;
  }
  Move-Settled {s} (join_writer m _) o w = record {
    settles = subst (Late-of s) m w.settles;
    answered = subst (λ x. Answered x s.detector) m w.answered;
  }
  Move-Settled {s} (join_detect m _) o w = record {
    settles = subst (Late-of s) m w.settles;
    answered = subst (λ x. Answered x s.detector) m w.answered;
  }
  Move-Settled {s} (join_reader m _) o w = record {
    settles = subst (Late-of s) m w.settles;
    answered = subst (λ x. Answered x s.detector) m w.answered;
  }
  Move-Settled (fetch _ _) o w = record { settles = w.settles; answered = w.answered }
  Move-Settled (fetch_end _ _) o w = record { settles = w.settles; answered = w.answered }
  Move-Settled (write _ _) o w = record { settles = w.settles; answered = w.answered }
  Move-Settled (break _ _) o w = record { settles = w.settles; answered = w.answered }
  Move-Settled (discard _ _) o w = record { settles = w.settles; answered = w.answered }
  Move-Settled (discard_end _ _) o w = record { settles = w.settles; answered = w.answered }

  Timeout-Settled : {s t : Line A P} → Timeout depth detect swap s t → Settled s → Settled t
  Timeout-Settled {s} (writer_late m) w = record {
    settles = subst (Late-of s) m w.settles;
    answered = subst (λ x. Answered x s.detector) m w.answered;
  }
  Timeout-Settled {s} (detect_late m) w = record {
    settles = subst (Late-of s) m w.settles;
    answered = subst (λ x. Answered x s.detector) m w.answered;
  }
  Timeout-Settled {s} (reader_late m) w = record {
    settles = subst (Late-of s) m w.settles;
    answered = subst (λ x. Answered x s.detector) m w.answered;
  }

  pub Reach-Settled : {k : ℕ} {s : Line A P} → Reach depth detect swap frames k s → Settled s
  unfolding opening
  Reach-Settled start = record { settles = tt; answered = tt }
  Reach-Settled (moved r m) =
      Move-Settled m (Reach-Ordered depth detect swap frames r) (Reach-Settled r)
  Reach-Settled (late r t) = Timeout-Settled t (Reach-Settled r)
