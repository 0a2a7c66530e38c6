-- ===== src/Fanout/Threads/Steps.antt =====
-- Every step keeps what is true of the threads.
use face_swap_streamer_versi.Prelude.{
  ℕ, refl, ap, sym, subst, ◌∙◌, List, none, some, length, nat_eq, sum_of, sum_of-middle,
  sum_of-snoc, arith, inl, inr, Option-cases,
}
use face_swap_streamer_versi.Fanout.{
  Swapped, Swapped-cases, idle, busy, Stream, fill, submit, release, close_demux, take_request,
  respond, answer, collect, pop_done, write_out,
}
use face_swap_streamer_versi.Fanout.Moves.{
  Move, read, read_end, leave_head, acquire, leave_acquire, put, start_work, end_work, drain,
  drain_end, pop, write, all_written, give_up, Reach, start, moved, failed, signalled, idled,
}
use face_swap_streamer_versi.Fanout.Ledger.{
  on_request, on_response, on_worker, on_demux, any_error-snoc,
}
use face_swap_streamer_versi.Fanout.Order.{Ordered, Ahead}
use face_swap_streamer_versi.Fanout.Order.Steps.{Reach-Ordered}
use face_swap_streamer_versi.Fanout.Threads.{
  Threads, erring_stopped, drop-end, length-middle, drained_early, answer-Threads, Fault-Threads,
  Signal-Threads, opening-Threads,
}

module _ {A : Type 0} (n_slots : ℕ) (process : A → Swapped A) (frames : List A)
    (n_workers : ℕ) where
  Move-Threads :
      {s t : Stream A}
      → Ordered process frames s
      → Threads frames n_workers s
      → Move n_slots process s t
      → Threads frames n_workers t
  unfolding fill submit close_demux take_request pop_done write_out release respond collect answer
  Move-Threads {s} o u (read d _ _ src) = record {
    balance = λ e. omega (arith, u.balance e, ap (on_demux (λ _ _. 1)) d);
    drained = λ e. inl (drained_early n_slots process frames n_workers u (λ c. cc) e);
    closing = λ q. cc;
    at_complete = λ e. absurd (cc (d, (u.at_complete e).0));
    at_quit = u.at_quit;
    at_broken = u.at_broken;
    staff = u.staff;
  }
  Move-Threads {s} o u (read_end d _ _ src) = record {
    balance = λ e. omega (arith, u.balance e, ap (on_demux (λ _ _. 1)) d);
    drained = λ e. inl (drained_early n_slots process frames n_workers u (λ c. cc) e);
    closing = λ q. inl (
        drop-end n_slots process frames n_workers s.dispatched frames
          (subst (λ x. Ahead process frames x s.dispatched s.source) d o.ahead ∙ src));
    at_complete = λ e. absurd (cc (d, (u.at_complete e).0));
    at_quit = u.at_quit;
    at_broken = u.at_broken;
    staff = u.staff;
  }
  Move-Threads {s} o u (leave_head d off) = record {
    balance = λ e. omega (arith, u.balance e, ap (on_demux (λ _ _. 1)) d);
    drained = λ e. inl (drained_early n_slots process frames n_workers u (λ c. cc) e);
    closing = λ q. inr off;
    at_complete = λ e. absurd (cc (d, (u.at_complete e).0));
    at_quit = u.at_quit;
    at_broken = u.at_broken;
    staff = u.staff;
  }
  Move-Threads {s} o u (acquire d _ free) = record {
    balance = λ e. omega (arith, u.balance e, ap (on_demux (λ _ _. 1)) d);
    drained = λ e. inl (drained_early n_slots process frames n_workers u (λ c. cc) e);
    closing = λ q. cc;
    at_complete = λ e. absurd (cc (d, (u.at_complete e).0));
    at_quit = u.at_quit;
    at_broken = u.at_broken;
    staff = u.staff;
  }
  Move-Threads {s} o u (leave_acquire d off) = record {
    balance = λ e. omega (arith, u.balance e, ap (on_demux (λ _ _. 1)) d);
    drained = λ e. inl (drained_early n_slots process frames n_workers u (λ c. cc) e);
    closing = λ q. inr (ground (arith, off));
    at_complete = λ e. absurd (cc (d, (u.at_complete e).0));
    at_quit = u.at_quit;
    at_broken = u.at_broken;
    staff = u.staff;
  }
  Move-Threads {s} o u (put {req} d _) = record {
    balance = λ e. omega (
      arith,
      u.balance e,
      ap (on_demux (λ _ _. 1)) d,
      sum_of-snoc (on_request (λ _ _. 1)) s.in_q req,
    );
    drained = λ e. inl (drained_early n_slots process frames n_workers u (λ c. cc) e);
    closing = λ q. cc;
    at_complete = λ e. absurd (cc (d, (u.at_complete e).0));
    at_quit = u.at_quit;
    at_broken = u.at_broken;
    staff = u.staff;
  }
  Move-Threads {s} o u (start_work before after {req} ws q) = record {
    balance = λ e. omega (
      arith,
      u.balance e,
      ap (sum_of (on_request (λ _ _. 1))) q,
      ap (sum_of (on_worker (λ _ _. 1))) ws,
      sum_of-middle (on_worker (λ _ _. 1)) before idle after,
      sum_of-middle (on_worker (λ _ _. 1)) before (busy req) after,
    );
    drained = u.drained;
    closing = u.closing;
    at_complete = u.at_complete;
    at_quit = u.at_quit;
    at_broken = u.at_broken;
    staff =
        length-middle n_slots process frames n_workers before (busy req) idle after
        ∙ ap length (sym ws)
        ∙ u.staff;
  }
  Move-Threads {s} o u (end_work before req after ws) =
      elim (Swapped-cases (process (s.slots req.slot_id))) [
        | inl (frame, n, e) ↦
            rw (e, respond)
              (answer-Threads n_slots process frames n_workers u before req after frame n none ws)
        | inr (frame, text, e) ↦
            rw (e, respond)
              (answer-Threads n_slots process frames n_workers u before req after frame 0
                (some text) ws)
      ]
  Move-Threads {s} o u (drain {resp} {rest} on q) = elim (Option-cases resp.error) [
    | inl e ↦
        rw (e, collect)
          (record {
            balance = λ e. omega (arith, u.balance e, ap (sum_of (on_response (λ _ _. 1))) q);
            drained = λ e. absurd (cc (on, e));
            closing = u.closing;
            at_complete = u.at_complete;
            at_quit = u.at_quit;
            at_broken = u.at_broken;
            staff = u.staff;
          })
    | inr (text, e) ↦
        rw (e, collect)
          (record {
            balance = λ e. absurd (cc (any_error-snoc s.worker_error text, e));
            drained = λ e. inl (any_error-snoc s.worker_error text);
            closing = λ c. inr (erring_stopped s.stop_flag s.worker_error text s.broken);
            at_complete = u.at_complete;
            at_quit = λ e. erring_stopped s.stop_flag s.worker_error text s.broken;
            at_broken = u.at_broken;
            staff = u.staff;
          })
  ]
  Move-Threads {s} o u (drain_end on q d le) = record {
    balance = u.balance;
    drained = λ e. inr (d, le);
    closing = u.closing;
    at_complete = u.at_complete;
    at_quit = u.at_quit;
    at_broken = u.at_broken;
    staff = u.staff;
  }
  Move-Threads {s} o u (pop p _ found) = record {
    balance = u.balance;
    drained = u.drained;
    closing = u.closing;
    at_complete = λ e. cc;
    at_quit = λ e. cc;
    at_broken = λ e. absurd (cc (p, u.at_broken e));
    staff = u.staff;
  }
  Move-Threads {s} o u (write p) = record {
    balance = u.balance;
    drained = u.drained;
    closing = u.closing;
    at_complete = λ e. cc;
    at_quit = λ e. cc;
    at_broken = λ e. absurd (cc (p, u.at_broken e));
    staff = u.staff;
  }
  Move-Threads {s} o u (all_written p _ _ d le) = record {
    balance = u.balance;
    drained = u.drained;
    closing = u.closing;
    at_complete = λ e. (d, le);
    at_quit = λ e. cc;
    at_broken = λ e. absurd (cc (p, u.at_broken e));
    staff = u.staff;
  }
  Move-Threads {s} o u (give_up p off) = record {
    balance = u.balance;
    drained = u.drained;
    closing = u.closing;
    at_complete = λ e. cc;
    at_quit = λ e. ground (arith, off);
    at_broken = λ e. refl;
    staff = u.staff;
  }

  pub Reach-Threads :
      {slots : ℕ → A} {s : Stream A}
      → Reach n_slots process n_workers slots frames s
      → Threads frames n_workers s
  Reach-Threads {slots} start = opening-Threads n_slots process frames n_workers slots
  Reach-Threads (moved r mv) = Move-Threads (Reach-Ordered process frames r) (Reach-Threads r) mv
  Reach-Threads (failed r f) = Fault-Threads n_slots process frames n_workers (Reach-Threads r) f
  Reach-Threads (signalled r sg) =
      Signal-Threads n_slots process frames n_workers (Reach-Threads r) sg
  Reach-Threads (idled r _) = Reach-Threads r
