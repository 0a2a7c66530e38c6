-- ===== src/Fanout/Progress.antt =====
-- No deadlock: until the last frame is written, some thread can go on.
use native.Mathlib.Decide.{dec_lt}
use face_swap_streamer_versi.Prelude.{
  ℕ, ◌≤◌, ◌<◌, ◌≡◌, ◌≢◌, refl, ap, ◌∙◌, true, false, List, [], ◌∷◌, ◌++◌, none, length, nat_eq,
  lookup, sum_of, lookup_none→has_key, hit, hit_self, arith, inl, inr, ◌⊎◌, Option-cases,
  List-cases, Bool-cases,
}
use face_swap_streamer_versi.Fanout.{
  Swapped, SwapRequest, SwapResponse, SwapWorker, idle, busy, Demux, reading, got, filled, closed,
  Writer, polling, writing, complete, quit, Stream, halted,
}
use face_swap_streamer_versi.Fanout.Moves.{
  Move, read, read_end, acquire, put, start_work, end_work, drain, pop, write, all_written, Reach,
}
use face_swap_streamer_versi.Fanout.Ledger.{
  on_request, on_response, on_entry, on_worker, on_demux, on_writer, clean, flight,
}
use face_swap_streamer_versi.Fanout.Slots.{Accounts, Reach-Accounts}
use face_swap_streamer_versi.Fanout.Threads.Steps.{Reach-Threads}
use face_swap_streamer_versi.Fanout.Threads.{Threads}

-- Some worker is busy, or none is and one is idle.
abbrev Staffed : List SwapWorker → Type 0
Staffed ws =
    ((before : List SwapWorker) × (req : SwapRequest) × (after : List SwapWorker) × (ws
        ≡ before ++ busy req ∷ after))
    ⊎ ((before : List SwapWorker) × (after : List SwapWorker) × (ws ≡ before ++ idle ∷ after))
      × ((w : ℕ → ℕ → ℕ) → sum_of (on_worker w) ws ≡ 0)

find_worker : (ws : List SwapWorker) → 0 < length ws → Staffed ws
find_worker [] h = absurd (omega arith)
find_worker (busy req ∷ ws) h = inl ([], req, ws, refl)
find_worker (idle ∷ []) h = inr (([], [], refl), λ w. refl)
find_worker (idle ∷ x ∷ ws) h = elim (find_worker (x ∷ ws) (omega arith)) [
  | inl (before, req, after, e) ↦ inl (idle ∷ before, req, after, ap (◌∷◌ idle) e)
  | inr (_, light) ↦ inr (([], x ∷ ws, refl), λ w. omega (arith, light w))
]

module _ {A : Type 0} where
  -- With nothing in a queue, with a worker or in the demultiplexer's hands, and no frame ready for
  -- the writer, the frames dispatched have all been written.
  record Quiet (s : Stream A) : Type 0 where
    polls : s.writer ≡ polling
    no_entry : lookup s.next_to_write s.done ≡ none
    no_answer : s.out_q ≡ []
    no_request : s.in_q ≡ []
    no_work : (w : ℕ → ℕ → ℕ) → sum_of (on_worker w) s.workers ≡ 0
    no_hand : (w : ℕ → ℕ → ℕ) → on_demux w s.demux ≡ 0

  Quiet-flight : {s : Stream A} (w : ℕ → ℕ → ℕ) → Quiet s → flight w s ≡ sum_of (on_entry w) s.done
  Quiet-flight {s} w q = omega (
    arith,
    ap (on_writer w s.next_to_write) q.polls,
    ap (sum_of (on_response w)) q.no_answer,
    ap (sum_of (on_request w)) q.no_request,
    q.no_work w,
    q.no_hand w,
  )

  all_caught_up :
      {n_slots : ℕ} {s : Stream A}
      → Accounts n_slots s
      → clean s ≡ true
      → Quiet s
      → s.dispatched ≤ s.next_to_write
  all_caught_up {s} inv ok q = elim (dec_lt s.next_to_write s.dispatched) [
    | yes lt ↦ absurd (
        omega (
          arith,
          inv.carried_all ok s.next_to_write (omega arith) lt,
          Quiet-flight (λ k slot. hit s.next_to_write k) q,
          lookup_none→has_key s.next_to_write s.done q.no_entry,
        ))
    | no ge ↦ omega (arith, ge)
  ]

  -- Then the pool is full again.
  slots_free :
      {n_slots : ℕ} {s : Stream A}
      → Accounts n_slots s
      → clean s ≡ true
      → Quiet s
      → 0 < n_slots
      → (slot : ℕ) × (rest : List ℕ) × (s.free ≡ slot ∷ rest)
  slots_free {s} inv ok q pos = elim (List-cases s.free) [
    | inr some_free ↦ some_free
    | inl none_free ↦ elim (List-cases s.done) [
      | inl e ↦ absurd (
          omega (
            arith,
            inv.held_all ok,
            Quiet-flight (λ k slot. 1) q,
            ap (sum_of (on_entry (λ k slot. 1))) e,
            ap (sum_of (λ slot. 1)) none_free,
          ))
      | inr ((k, entry), rest, e) ↦ absurd (
          grind (
            arith,
            inv.carried_old k,
            inv.carried_new k,
            all_caught_up inv ok q,
            Quiet-flight (λ j slot. hit k j) q,
            ap (sum_of (on_entry (λ j slot. hit k j))) e,
            hit_self k,
          ))
    ]
  ]

module _ {A : Type 0} {n_slots n_workers : ℕ} {process : A → Swapped A} {frames : List A} where
  module _ {slots : ℕ → A} {s : Stream A} (r : Reach n_slots process n_workers slots frames s)
      (some_slot : 0 < n_slots) (some_worker : 0 < n_workers) (off : halted s ≡ false)
      (on : s.pause_flag ≡ false) where
    inv : Accounts n_slots s
    inv = Reach-Accounts n_slots process r

    threads : Threads frames n_workers s
    threads = Reach-Threads n_slots process frames n_workers r

    -- The drainer has not left an answer behind.
    still_draining :
        {resp : SwapResponse} {rest : List SwapResponse} → s.out_q ≡ resp ∷ rest → s.draining ≡ true
    still_draining q = elim (Bool-cases s.draining) [
      | inl yes_draining ↦ yes_draining
      | inr ended ↦ elim (threads.drained ended) [
        | inl bad ↦ absurd (ground (arith, off, bad))
        | inr (_, all_in) ↦ absurd (
            omega (
              arith,
              threads.balance (ground (arith, off)),
              ap (sum_of (on_response (λ _ _. 1))) q,
            ))
      ]
    ]

    demux_moves :
        (d : Demux A)
        → s.demux ≡ d
        → s.broken ≡ false
        → (((w : ℕ → ℕ → ℕ) → on_demux w d ≡ 0) → Quiet s)
        → s.in_q ≡ []
        → (t : Stream A) × Move n_slots process s t
    demux_moves reading e whole quiet _ = elim (List-cases s.source) [
      | inl end ↦ (_, read_end e (ground (arith, off, whole)) on end)
      | inr (frame, rest, more) ↦ (_, read e (ground (arith, off, whole)) on more)
    ]
    demux_moves (got frame) e whole quiet _ =
        let clear : (clean s ≡ true) = ground (arith, off, whole) in
        let (slot, rest, free) = slots_free inv clear (quiet (λ w. refl)) some_slot in
        (_, acquire e off free)
    demux_moves (filled req) e whole quiet no_request =
        (_, put e (omega (arith, ap length no_request)))
    demux_moves closed e whole quiet _ =
        let q = quiet (λ w. refl) in
        let clear : (clean s ≡ true) = ground (arith, off, whole) in
        (_, all_written q.polls off q.no_entry e (all_caught_up inv clear q))

    whole_pipe : s.writer ≡ polling → s.broken ≡ false
    whole_pipe p = elim (Bool-cases s.broken) [
      | inl bad ↦ absurd (cc (p, threads.at_broken bad))
      | inr whole ↦ whole
    ]

    writer_moves :
        (w : Writer)
        → s.writer ≡ w
        → w ≢ complete
        → w ≢ quit
        → (t : Stream A) × Move n_slots process s t
    writer_moves complete e ne _ = absurd (ne refl)
    writer_moves quit e _ ne = absurd (ne refl)
    writer_moves (writing entry) e _ _ = (_, write e)
    writer_moves polling e _ _ = elim (Option-cases (lookup s.next_to_write s.done)) [
      | inr (entry, found) ↦ (_, pop e off found)
      | inl missing ↦ elim (List-cases s.out_q) [
        | inr (resp, rest, q) ↦ (_, drain (still_draining q) q)
        | inl no_answer ↦ elim (find_worker s.workers (omega (arith, threads.staff))) [
          | inl (before, req, after, ws) ↦ (_, end_work before req after ws)
          | inr ((before, after, ws), light) ↦ elim (List-cases s.in_q) [
            | inr (req, rest, q) ↦ (_, start_work before after ws q)
            | inl no_request ↦
                demux_moves s.demux refl (whole_pipe e)
                  (λ h. record {
                    polls = e;
                    no_entry = missing;
                    no_answer = no_answer;
                    no_request = no_request;
                    no_work = light;
                    no_hand = λ w. ap (on_demux w) refl ∙ h w;
                  })
                  no_request
          ]
        ]
      ]
    ]

    -- No deadlock: in any state that a job comes to, with at least one slot and one worker, and
    -- while it is neither stopped, paused nor failed, if the writer has not ended then some thread
    -- or worker can take a step.
    pub no_deadlock :
        s.writer ≢ complete → s.writer ≢ quit → (t : Stream A) × Move n_slots process s t
    no_deadlock = writer_moves s.writer refl
