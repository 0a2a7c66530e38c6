-- ===== src/Fanout/Ends/Returns.antt =====
-- _run_job: from anywhere the threads can come to the return of the writer, for which it waits.
use face_swap_streamer_versi.Prelude.{
  ℕ, zero, suc, ◌+◌, ◌*◌, ◌≤◌, ◌<◌, ◌≡◌, refl, ◌∙◌, ◌⊎◌, inl, inr, false, List, length, arith,
  Bool-cases, Option-cases,
}
use face_swap_streamer_versi.Fanout.{
  Swapped, Swapped-cases, Writer, polling, writing, complete, quit, Stream, halted, fill, submit,
  release, close_demux, take_request, respond, answer, collect, pop_done, write_out,
}
use face_swap_streamer_versi.Fanout.Moves.{
  Move, read, read_end, leave_head, acquire, leave_acquire, put, start_work, end_work, drain,
  drain_end, pop, write, all_written, give_up, Reach, moved,
}
use face_swap_streamer_versi.Fanout.Slots.{Reach-Accounts}
use face_swap_streamer_versi.Fanout.Progress.{no_deadlock}
use face_swap_streamer_versi.Fanout.Ends.{work, steps_of, steps_and_work, Move-work}

-- The writer has returned.
abbrev pub Returned : Writer → Type 0
Returned complete = Unit
Returned quit = Unit
Returned _ = ⊥

module _ {A : Type 0} (n_slots : ℕ) (process : A → Swapped A) where
  -- A number of steps of threads and workers, one after the other.
  pub data Steps : Stream A → ℕ → Stream A → Type 0 where
    here : {s : Stream A} → Steps s 0 s
    step : {k : ℕ} {s t u : Stream A} → Move n_slots process s t → Steps t k u → Steps s (suc k) u

  -- No step touches the pause flag.
  Move-pause : {s t : Stream A} → Move n_slots process s t → t.pause_flag ≡ s.pause_flag
  unfolding fill submit close_demux take_request pop_done write_out release respond collect answer
  Move-pause (read _ _ _ _) = refl
  Move-pause (read_end _ _ _ _) = refl
  Move-pause (leave_head _ _) = refl
  Move-pause (acquire _ _ _) = refl
  Move-pause (leave_acquire _ _) = refl
  Move-pause (put _ _) = refl
  Move-pause (start_work _ _ _ _) = refl
  Move-pause {s} (end_work before req after _) =
      elim (Swapped-cases (process (s.slots req.slot_id))) [
        | inl (frame, n, e) ↦ rw (e, respond) refl
        | inr (frame, text, e) ↦ rw (e, respond) refl
      ]
  Move-pause (drain {resp} _ _) = elim (Option-cases resp.error) [
    | inl e ↦ rw (e, collect) refl
    | inr (text, e) ↦ rw (e, collect) refl
  ]
  Move-pause (drain_end _ _ _ _) = refl
  Move-pause (pop _ _ _) = refl
  Move-pause (write _) = refl
  Move-pause (all_written _ _ _ _ _) = refl
  Move-pause (give_up _ _) = refl

  abbrev CanReturn : Stream A → Type 0
  CanReturn s = (k : ℕ) × (u : Stream A) × Steps s k u × Returned u.writer × (k ≤ work s)

  module _ {n_workers : ℕ} {slots : ℕ → A} {frames : List A} (some_slot : 0 < n_slots)
      (some_worker : 0 < n_workers) where
    -- While the writer has not returned, some step can be taken.
    next :
        {s : Stream A}
        → Reach n_slots process n_workers slots frames s
        → s.pause_flag ≡ false
        → Returned s.writer ⊎ ((t : Stream A) × Move n_slots process s t)
    next {s} r on = at s.writer refl
      where
        busy_with :
            (w : Writer)
            → s.writer ≡ w
            → halted s ≡ false
            → Returned s.writer ⊎ ((t : Stream A) × Move n_slots process s t)
        busy_with complete e off = inl (rw e tt)
        busy_with quit e off = inl (rw e tt)
        busy_with polling e off =
            inr (no_deadlock r some_slot some_worker off on (λ q. cc (e, q)) (λ q. cc (e, q)))
        busy_with (writing entry) e off = inr (_, write e)

        at :
            (w : Writer)
            → s.writer ≡ w
            → Returned s.writer ⊎ ((t : Stream A) × Move n_slots process s t)
        at complete e = inl (rw e tt)
        at quit e = inl (rw e tt)
        at (writing entry) e = inr (_, write e)
        at polling e = elim (Bool-cases (halted s)) [
          | inl off ↦ inr (_, give_up e off)
          | inr on_still ↦ busy_with polling e on_still
        ]

    returns :
        (fuel : ℕ) {s : Stream A}
        → Reach n_slots process n_workers slots frames s
        → s.pause_flag ≡ false
        → work s ≤ fuel
        → CanReturn s
    returns zero {s} r on few = elim (next r on) [
      | inl done ↦ (0, s, here, done, omega arith)
      | inr (t, mv) ↦
          absurd (omega (arith, Move-work n_slots process (Reach-Accounts n_slots process r) mv))
    ]
    returns (suc fuel) {s} r on few = elim (next r on) [
      | inl done ↦ (0, s, here, done, omega arith)
      | inr (t, mv) ↦
          let less = Move-work n_slots process (Reach-Accounts n_slots process r) mv in
          let (k, u, run, done, short) =
            returns fuel (moved r mv) (Move-pause mv ∙ on) (omega arith) in
          (suc k, u, step mv run, done, omega arith)
    ]

    -- In any state that a job comes to, with at least one slot and one worker, however the threads
    -- and workers took turns and waited, and whatever failed or the user asked for: if the job is
    -- not paused, the threads and workers can go on until the writer has returned. The steps taken
    -- before and those still to take are together at most nine for each frame of the video and
    -- three more, the iterations of the waiting loops, which change nothing, not counted.
    pub job_terminates :
        {s : Stream A} (r : Reach n_slots process n_workers slots frames s)
        → s.pause_flag ≡ false
        → (k : ℕ) × (u : Stream A) × Steps s k u
          × Returned u.writer
          × (steps_of n_slots process r + k ≤ 9 * length frames + 3)
    job_terminates {s} r on =
        let (k, u, run, done, short) = returns (work s) r on (omega arith) in
        (k, u, run, done, omega (arith, steps_and_work n_slots process r))
