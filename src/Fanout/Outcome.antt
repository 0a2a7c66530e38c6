-- ===== src/Fanout/Outcome.antt =====
-- How an undisturbed job ends: with the whole video written.
use face_swap_streamer_versi.Prelude.{
  ℕ, ◌≤◌, ◌<◌, ◌≡◌, ◌≢◌, refl, ap, ◌∙◌, false, List, length, take-all, map, nat_eq, sum_of, arith,
  inl, inr, Bool-cases,
}
use face_swap_streamer_versi.Fanout.{
  Swapped, Writer, polling, writing, complete, quit, Stream, halted,
}
use face_swap_streamer_versi.Fanout.Moves.{Move, Reach}
use face_swap_streamer_versi.Fanout.Order.{image_of, faces_of}
use face_swap_streamer_versi.Fanout.Order.Steps.{Reach-Ordered}
use face_swap_streamer_versi.Fanout.Threads.Steps.{Reach-Threads}
use face_swap_streamer_versi.Fanout.Threads.{Threads}
use face_swap_streamer_versi.Fanout.Progress.{no_deadlock}

module _ {A : Type 0} {n_slots n_workers : ℕ} {process : A → Swapped A} {frames : List A} where
  module _ {slots : ℕ → A} {s : Stream A} (r : Reach n_slots process n_workers slots frames s)
      (some_slot : 0 < n_slots) (some_worker : 0 < n_workers) (off : halted s ≡ false)
      (on : s.pause_flag ≡ false) where
    threads : Threads frames n_workers s
    threads = Reach-Threads n_slots process frames n_workers r

    -- In any state that a job comes to, with at least one slot and one worker, and while it is
    -- neither stopped, paused nor failed: if the writer has returned with all frames written, then
    -- ffmpeg has been given the whole video, each frame swapped, in order, and `swap_count` is the
    -- number of faces swapped in it.
    pub complete-all_written :
        s.writer ≡ complete
        → (s.written ≡ map (image_of process) frames)
          × (s.swap_count ≡ sum_of (faces_of process) frames)
    complete-all_written e =
        let o = Reach-Ordered process frames r in
        let (shut, done) = threads.at_complete e in
        let whole : (s.broken ≡ false) = elim (Bool-cases s.broken) [
          | inl bad ↦ absurd (cc (e, threads.at_broken bad))
          | inr fine ↦ fine
        ] in
        let every : (length frames ≤ s.next_to_write) = elim (threads.closing shut) [
          | inl le ↦ omega arith
          | inr bad ↦ absurd (ground (arith, bad, off, whole))
        ] in
        let whole_take = take-all s.next_to_write frames every in
        (
          o.out ∙ ap (map (image_of process)) whole_take,
          o.faces ∙ ap (sum_of (faces_of process)) whole_take,
        )

    -- In any state that a job comes to, with at least one slot and one worker, and while it is
    -- neither stopped, paused nor failed and the pipe to ffmpeg is whole: if no thread and no
    -- worker can take a step any more, the whole video has been written, swapped and in order.
    pub stuck-all_written :
        s.broken ≡ false
        → ((t : Stream A) → ¬ Move n_slots process s t)
        → s.written ≡ map (image_of process) frames
    stuck-all_written whole stuck = at s.writer refl
      where
        moves : s.writer ≢ complete → s.writer ≢ quit → ⊥
        moves a b = let (t, mv) = no_deadlock r some_slot some_worker off on a b in stuck t mv

        at : (w : Writer) → s.writer ≡ w → s.written ≡ map (image_of process) frames
        at complete e = (complete-all_written e).0
        at quit e = absurd (ground (arith, off, whole, threads.at_quit e))
        at polling e = absurd (moves (λ q. cc) (λ q. cc))
        at (writing entry) e = absurd (moves (λ q. cc) (λ q. cc))
