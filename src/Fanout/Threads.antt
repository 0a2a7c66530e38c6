-- ===== src/Fanout/Threads.antt =====
-- Where the threads stand: what is true once one of them has ended.
pub mod Steps
use face_swap_streamer_versi.Prelude.{
  ℕ, zero, suc, ◌+◌, ◌≤◌, ◌≡◌, ◌≢◌, refl, ap, sym, subst, ◌∙◌, Bool, true, false, ◌||◌, List, [],
  ◌∷◌, ◌++◌, Option, none, some, String, drop, length, length-replicate, nat_eq, sum_of,
  sum_of-middle, sum_of-snoc, arith, inl, inr, ◌⊎◌, Option-cases, replicate,
}
use face_swap_streamer_versi.Fanout.{
  Swapped, Swapped-cases, SwapRequest, SwapWorker, idle, busy, closed, complete, quit, Stream, fill,
  submit, release, opening, halted, any_error, close_demux, take_request, respond, answer, collect,
  pop_done, write_out, break_pipe,
}
use face_swap_streamer_versi.Fanout.Moves.{
  Move, read, read_end, leave_head, acquire, leave_acquire, put, start_work, end_work, drain,
  drain_end, lost, pop, write, break, all_written, give_up, Signal, stop, pause, Fault, Reach,
  start, moved, failed, signalled,
}
use face_swap_streamer_versi.Fanout.Ledger.{
  on_request, on_response, on_worker, on_demux, any_error-snoc,
}
use face_swap_streamer_versi.Fanout.Order.{Ordered, Ahead}

pub erring_stopped :
    (b : Bool) (es : List String) (e : String) (c : Bool)
    → (b || any_error (es ++ e ∷ []) || c) ≡ true
erring_stopped true es e c = ground arith
erring_stopped false es e c = rw (any_error-snoc es e) (ground arith)

module _ {A : Type 0} where
  -- The frames dispatched that the drainer has not collected.
  abbrev pub pending : Stream A → ℕ
  pending s =
      on_demux (λ _ _. 1) s.demux
      + sum_of (on_request (λ _ _. 1)) s.in_q
      + sum_of (on_worker (λ _ _. 1)) s.workers
      + sum_of (on_response (λ _ _. 1)) s.out_q

  abbrev pub stopped : Stream A → Bool
  stopped s = halted s || s.broken

  pub record Threads (frames : List A) (n_workers : ℕ) (s : Stream A) : Type 0 where
    pub balance : any_error s.worker_error ≡ false → s.collected + pending s ≡ s.dispatched
    pub drained :
        s.draining ≡ false
        → (any_error s.worker_error ≡ true) ⊎ (s.demux ≡ closed) × (s.dispatched ≤ s.collected)
    pub closing : s.demux ≡ closed → (length frames ≤ s.dispatched) ⊎ (stopped s ≡ true)
    pub at_complete : s.writer ≡ complete → (s.demux ≡ closed) × (s.dispatched ≤ s.next_to_write)
    pub at_quit : s.writer ≡ quit → stopped s ≡ true
    pub at_broken : s.broken ≡ true → s.writer ≡ quit
    pub staff : length s.workers ≡ n_workers

  module _ (n_slots : ℕ) (process : A → Swapped A) (frames : List A) (n_workers : ℕ) where
    pub drop-end : (k : ℕ) (xs : List A) → drop k xs ≡ [] → length xs ≤ k
    drop-end k [] h = omega arith
    drop-end zero (x ∷ xs) h = cc
    drop-end (suc k) (x ∷ xs) h = omega (arith, drop-end k xs h)

    pub length-middle :
        (xs : List SwapWorker) (y z : SwapWorker) (ys : List SwapWorker)
        → length (xs ++ y ∷ ys) ≡ length (xs ++ z ∷ ys)
    length-middle [] y z ys = refl
    length-middle (x ∷ xs) y z ys = ap suc (length-middle xs y z ys)

    -- Before the demultiplexer has returned, the drainer ends only on an error.
    pub drained_early :
        {s : Stream A}
        → Threads frames n_workers s
        → s.demux ≢ closed
        → s.draining ≡ false
        → any_error s.worker_error ≡ true
    drained_early u ne e = elim (u.drained e) [ inl x ↦ x | inr (c, _) ↦ absurd (ne c) ]

    pub answer-Threads :
        {s : Stream A}
        → Threads frames n_workers s
        → (before : List SwapWorker) (req : SwapRequest) (after : List SwapWorker) (frame : A)
          (n : ℕ) (error : Option String)
        → s.workers ≡ before ++ busy req ∷ after
        → Threads frames n_workers (answer before req after frame n error s)
    unfolding answer
    answer-Threads {s} u before req after frame n error ws = record {
      balance = λ e. omega (
        arith,
        u.balance e,
        ap (sum_of (on_worker (λ _ _. 1))) ws,
        sum_of-middle (on_worker (λ _ _. 1)) before idle after,
        sum_of-middle (on_worker (λ _ _. 1)) before (busy req) after,
        sum_of-snoc (on_response (λ _ _. 1)) s.out_q (record {
          frame_idx = req.frame_idx;
          slot_id = req.slot_id;
          n_swapped = n;
          error = error;
        }),
      );
      drained = u.drained;
      closing = u.closing;
      at_complete = u.at_complete;
      at_quit = u.at_quit;
      at_broken = u.at_broken;
      staff = length-middle before idle (busy req) after ∙ ap length (sym ws) ∙ u.staff;
    }

    pub Fault-Threads :
        {s t : Stream A}
        → Threads frames n_workers s
        → Fault n_slots process s t
        → Threads frames n_workers t
    unfolding break_pipe release
    Fault-Threads {s} u (lost text on q) = record {
      balance = λ e. absurd (cc (any_error-snoc s.worker_error text, e));
      drained = λ e. inl (any_error-snoc s.worker_error text);
      closing = λ c. inr (erring_stopped s.stop_flag s.worker_error text s.broken);
      at_complete = u.at_complete;
      at_quit = λ e. erring_stopped s.stop_flag s.worker_error text s.broken;
      at_broken = u.at_broken;
      staff = u.staff;
    }
    Fault-Threads {s} u (break p) = record {
      balance = u.balance;
      drained = u.drained;
      closing = λ c. inr (ground arith);
      at_complete = λ e. cc;
      at_quit = λ e. ground arith;
      at_broken = λ e. refl;
      staff = u.staff;
    }

    pub Signal-Threads :
        {s t : Stream A}
        → Threads frames n_workers s
        → Signal n_slots process s t
        → Threads frames n_workers t
    Signal-Threads u stop = record {
      balance = u.balance;
      drained = u.drained;
      closing = λ c. inr (ground arith);
      at_complete = u.at_complete;
      at_quit = λ e. ground arith;
      at_broken = u.at_broken;
      staff = u.staff;
    }
    Signal-Threads u (pause on) = record {
      balance = u.balance;
      drained = u.drained;
      closing = u.closing;
      at_complete = u.at_complete;
      at_quit = u.at_quit;
      at_broken = u.at_broken;
      staff = u.staff;
    }

    no_work : (n : ℕ) → sum_of (on_worker (λ _ _. 1)) (replicate n idle) ≡ 0
    no_work zero = refl
    no_work (suc n) = omega (arith, no_work n)

    pub opening-Threads :
        (slots : ℕ → A) → Threads frames n_workers (opening n_workers n_slots slots frames)
    unfolding opening
    opening-Threads slots = record {
      balance = λ e. omega (arith, no_work n_workers);
      drained = λ e. cc;
      closing = λ c. cc;
      at_complete = λ e. cc;
      at_quit = λ e. cc;
      at_broken = λ e. cc;
      staff = length-replicate n_workers idle;
    }
