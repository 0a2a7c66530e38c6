-- ===== src/Fanout/Ends.antt =====
-- Each step of the threads that is not a waiting one uses up work, and the writer returns.
pub mod Returns
use face_swap_streamer_versi.Prelude.{
  ℕ, zero, suc, ◌+◌, ◌*◌, ◌≤◌, ◌<◌, ◌≡◌, refl, ap, Bool, true, false, List, ◌∷◌, ◌++◌, Option, none,
  some, String, length, replicate, nat_eq, sum_of, sum_of-middle, sum_of-snoc, sum_of-insert,
  sum_of-erase, hit, hit_self, arith, inl, inr, Option-cases,
}
use face_swap_streamer_versi.Fanout.{
  Swapped, Swapped-cases, SwapRequest, SwapWorker, idle, busy, Demux, reading, got, filled, closed,
  Writer, polling, writing, Stream, fill, submit, release, opening, close_demux, take_request,
  respond, answer, collect, pop_done, write_out, break_pipe,
}
use face_swap_streamer_versi.Fanout.Moves.{
  Move, read, read_end, leave_head, acquire, leave_acquire, put, start_work, end_work, drain,
  drain_end, lost, pop, write, break, all_written, give_up, Signal, stop, pause, Fault, Reach,
  start, moved, failed, signalled, idled,
}
use face_swap_streamer_versi.Fanout.Ledger.{on_request, on_response, on_entry, on_worker}
use face_swap_streamer_versi.Fanout.Slots.{Accounts, Reach-Accounts}

abbrev worth : ℕ → ℕ → ℕ → ℕ
worth n k slot = n

abbrev drainer_work : Bool → ℕ
drainer_work true = 1
drainer_work false = 0

abbrev writer_work : Writer → ℕ
writer_work polling = 1
writer_work (writing e) = 3
writer_work _ = 0

module _ {A : Type 0} where
  abbrev demux_work : Demux A → ℕ
  demux_work reading = 1
  demux_work (got frame) = 9
  demux_work (filled r) = 8
  demux_work closed = 0

  -- The steps that are left at most: for each frame by the place it has come to, and one for each
  -- thread's return.
  abbrev pub work : Stream A → ℕ
  work s =
      9 * length s.source
      + demux_work s.demux
      + sum_of (on_request (worth 6)) s.in_q
      + sum_of (on_worker (worth 5)) s.workers
      + sum_of (on_response (worth 4)) s.out_q
      + sum_of (on_entry (worth 3)) s.done
      + drainer_work s.draining
      + writer_work s.writer

  module _ (n_slots : ℕ) (process : A → Swapped A) where
    answered :
        (s : Stream A) (before : List SwapWorker) (req : SwapRequest) (after : List SwapWorker)
        (frame : A) (n : ℕ) (error : Option String)
        → s.workers ≡ before ++ busy req ∷ after
        → work (answer before req after frame n error s) < work s
    unfolding answer
    answered s before req after frame n error ws = omega (
      arith,
      ap (sum_of (on_worker (worth 5))) ws,
      sum_of-middle (on_worker (worth 5)) before idle after,
      sum_of-middle (on_worker (worth 5)) before (busy req) after,
      sum_of-snoc (on_response (worth 4)) s.out_q (record {
        frame_idx = req.frame_idx;
        slot_id = req.slot_id;
        n_swapped = n;
        error = error;
      }),
    )

    pub Move-work :
        {s t : Stream A} → Accounts n_slots s → Move n_slots process s t → work t < work s
    unfolding fill submit close_demux take_request pop_done write_out release respond collect answer
    Move-work inv (read d _ _ src) = omega (arith, ap demux_work d, ap length src)
    Move-work inv (read_end d _ _ src) = omega (arith, ap demux_work d)
    Move-work inv (leave_head d _) = omega (arith, ap demux_work d)
    Move-work inv (acquire d _ _) = omega (arith, ap demux_work d)
    Move-work inv (leave_acquire d _) = omega (arith, ap demux_work d)
    Move-work {s} inv (put {req} d _) =
        omega (arith, ap demux_work d, sum_of-snoc (on_request (worth 6)) s.in_q req)
    Move-work inv (start_work before after {req} ws q) = omega (
      arith,
      ap (sum_of (on_worker (worth 5))) ws,
      ap (sum_of (on_request (worth 6))) q,
      sum_of-middle (on_worker (worth 5)) before idle after,
      sum_of-middle (on_worker (worth 5)) before (busy req) after,
    )
    Move-work {s} inv (end_work before req after ws) =
        elim (Swapped-cases (process (s.slots req.slot_id))) [
          | inl (frame, n, e) ↦ rw (e, respond) (answered s before req after frame n none ws)
          | inr (frame, text, e) ↦
              rw (e, respond) (answered s before req after frame 0 (some text) ws)
        ]
    Move-work {s} inv (drain {resp} on q) = elim (Option-cases resp.error) [
      | inl e ↦
          rw (e, collect)
            (omega (
              arith,
              ap (sum_of (on_response (worth 4))) q,
              sum_of-insert (on_entry (worth 3)) resp.frame_idx
                  (record { slot_id = resp.slot_id; n_swapped = resp.n_swapped }) s.done
                  (omega (
                    arith,
                    inv.carried_once resp.frame_idx,
                    hit_self resp.frame_idx,
                    ap (sum_of (on_response (λ k slot. hit resp.frame_idx k))) q,
                  )),
            ))
      | inr (text, e) ↦
          rw (e, collect) (omega (arith, ap (sum_of (on_response (worth 4))) q, ap drainer_work on))
    ]
    Move-work inv (drain_end on _ _ _) = omega (arith, ap drainer_work on)
    Move-work {s} inv (pop {entry} p _ found) = omega (
      arith,
      ap writer_work p,
      sum_of-erase (on_entry (worth 3)) s.next_to_write entry s.done found
          (omega (arith, inv.carried_once s.next_to_write)),
    )
    Move-work inv (write p) = omega (arith, ap writer_work p)
    Move-work inv (all_written p _ _ _ _) = omega (arith, ap writer_work p)
    Move-work inv (give_up p _) = omega (arith, ap writer_work p)

    Fault-work : {s t : Stream A} → Fault n_slots process s t → work t < work s
    unfolding break_pipe release
    Fault-work (lost _ on _) = omega (arith, ap drainer_work on)
    Fault-work (break p) = omega (arith, ap writer_work p)

    Signal-work : {s t : Stream A} → Signal n_slots process s t → work t ≡ work s
    Signal-work stop = refl
    Signal-work (pause _) = refl

    -- The steps of threads, workers and faults on the way to a state; waiting is not counted.
    abbrev pub steps_of :
        {n_workers : ℕ} {slots : ℕ → A} {frames : List A} {s : Stream A}
        → Reach n_slots process n_workers slots frames s
        → ℕ
    steps_of start = 0
    steps_of (moved r _) = suc (steps_of r)
    steps_of (failed r _) = suc (steps_of r)
    steps_of (signalled r _) = steps_of r
    steps_of (idled r _) = steps_of r

    no_work : (n : ℕ) → sum_of (on_worker (worth 5)) (replicate n idle) ≡ 0
    no_work zero = refl
    no_work (suc n) = omega (arith, no_work n)

    work-opening :
        (n_workers : ℕ) (slots : ℕ → A) (frames : List A)
        → work (opening n_workers n_slots slots frames) ≡ 9 * length frames + 3
    unfolding opening
    work-opening n_workers slots frames = omega (arith, no_work n_workers)

    pub steps_and_work :
        {n_workers : ℕ} {slots : ℕ → A} {frames : List A} {s : Stream A}
        → (r : Reach n_slots process n_workers slots frames s)
        → steps_of r + work s ≤ 9 * length frames + 3
    steps_and_work {n_workers} {slots} {frames} start =
        omega (arith, work-opening n_workers slots frames)
    steps_and_work (moved r mv) =
        omega (arith, steps_and_work r, Move-work (Reach-Accounts n_slots process r) mv)
    steps_and_work (failed r f) = omega (arith, steps_and_work r, Fault-work f)
    steps_and_work (signalled r sg) = omega (arith, steps_and_work r, Signal-work sg)
    steps_and_work (idled r _) = omega (arith, steps_and_work r)
