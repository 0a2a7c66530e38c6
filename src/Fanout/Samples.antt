-- ===== src/Fanout/Samples.antt =====
-- Two workers and two slots on a video of two frames, the second answered before the first.
use face_swap_streamer_versi.Prelude.{
  ◌%◌, ◌==◌, if◌then◌else◌, All, ℕ, ◌+◌, ◌*◌, ◌≤◌, ◌<◌, ◌≡◌, refl, ap, true, List, [], ◌∷◌, ◌++◌,
  map, take, length, arith, sum_of, sum_of-middle,
}
use face_swap_streamer_versi.Floats.Fixed.{ℤ, pos, fixed_floats, ℤ-IsIeee}
use face_swap_streamer_versi.Fanout.Faces.{Similar, claim_pairs, leftovers, match_faces_to_sources}
use face_swap_streamer_versi.Fanout.Faces.Matches.{times, Clear, match_faces_to_sources-Fair}
use face_swap_streamer_versi.Fanout.{
  Swapped, swapped, SwapRequest, Entry, SwapWorker, idle, busy, Stream, fill, submit, release,
  opening, close_demux, take_request, respond, answer, collect, pop_done, write_out, filled,
  writing,
}
use face_swap_streamer_versi.Fanout.Moves.{
  Move, read, read_end, acquire, put, start_work, end_work, drain, leave_head, leave_acquire,
  drain_end, pop, write, all_written, give_up, Reach, start, moved,
}
use face_swap_streamer_versi.Fanout.Ledger.{clean, on_worker}
use face_swap_streamer_versi.Fanout.Slots.{held, all_held, slots_conserved, never_full}
use face_swap_streamer_versi.Fanout.Order.{image_of, faces_of}
use face_swap_streamer_versi.Fanout.Outcome.{complete-all_written}
use face_swap_streamer_versi.Fanout.Order.Steps.{written_in_order}
use face_swap_streamer_versi.Fanout.Progress.{no_deadlock}
use face_swap_streamer_versi.Fanout.Ends.{steps_of}
use face_swap_streamer_versi.Fanout.Ends.Returns.{Steps, Returned, job_terminates}

abbrev hundred_more : ℕ → Swapped ℕ
hundred_more f = swapped (f + 100) 1

record Run : Type 0 where
  last : Stream ℕ
  reach : Reach 2 hundred_more 2 (λ _. 0) (7 ∷ 8 ∷ []) last

abbrev both_dispatched : Run
unfolding fill submit opening
both_dispatched = record {
  last = _;
  reach =
      moved
        (moved
          (moved
            (moved (moved (moved start (read refl refl refl refl)) (acquire refl refl refl))
              (put refl (omega arith)))
            (read refl refl refl refl))
          (acquire refl refl refl))
        (put refl (omega arith));
}

-- The second frame is answered and collected first.
abbrev second_first : Run
unfolding fill submit opening take_request respond collect answer
second_first = record {
  last = _;
  reach =
      moved
        (moved
          (moved
            (moved
              (moved (moved both_dispatched.reach (start_work [] (idle ∷ []) refl refl))
                (start_work (busy _ ∷ []) [] refl refl))
              (end_work (busy _ ∷ []) _ [] refl))
            (drain refl refl))
          (end_work [] _ (idle ∷ []) refl))
        (drain refl refl);
}

-- The writer has the first frame in hand.
abbrev in_hand : Run
unfolding fill submit opening take_request respond collect answer pop_done
in_hand = record { last = _; reach = moved second_first.reach (pop refl refl refl) }

abbrev both_written : Run
unfolding fill submit opening take_request respond collect answer pop_done write_out release
    close_demux
both_written = record {
  last = _;
  reach =
      moved
        (moved
          (moved
            (moved (moved (moved in_hand.reach (write refl)) (pop refl refl refl)) (write refl))
            (read_end refl refl refl refl))
          (drain_end refl refl refl (omega arith)))
        (all_written refl refl refl refl (omega arith));
}

written_in_order_example :
    (both_written.last.written ≡ map (image_of hundred_more) (take 2 (7 ∷ 8 ∷ [])))
    × (both_written.last.swap_count ≡ sum_of (faces_of hundred_more) (take 2 (7 ∷ 8 ∷ [])))
unfolding fill submit opening take_request respond collect answer pop_done write_out release
    close_demux
written_in_order_example = written_in_order hundred_more both_written.reach

slots_conserved_example :
    ((j : ℕ) → held j in_hand.last ≤ 1) × (clean in_hand.last ≡ true → all_held in_hand.last ≡ 2)
slots_conserved_example = slots_conserved 2 hundred_more in_hand.reach

never_full_example :
    ((req : SwapRequest) → in_hand.last.demux ≡ filled req → length in_hand.last.in_q < 2)
    × ((entry : Entry) → in_hand.last.writer ≡ writing entry → length in_hand.last.free < 2)
never_full_example = never_full 2 hundred_more in_hand.reach

no_deadlock_example : (t : Stream ℕ) × Move 2 hundred_more second_first.last t
unfolding fill submit opening take_request respond collect answer
no_deadlock_example =
    no_deadlock second_first.reach (omega arith) (omega arith) refl refl (λ e. cc) (λ e. cc)

complete-all_written_example :
    (both_written.last.written ≡ map (image_of hundred_more) (7 ∷ 8 ∷ []))
    × (both_written.last.swap_count ≡ sum_of (faces_of hundred_more) (7 ∷ 8 ∷ []))
unfolding fill submit opening take_request respond collect answer pop_done write_out release
    close_demux
complete-all_written_example =
    complete-all_written both_written.reach (omega arith) (omega arith) refl refl refl

no_busy :
    (before : List SwapWorker) (req : SwapRequest) (after : List SwapWorker)
    → ¬ (idle ∷ idle ∷ [] ≡ before ++ busy req ∷ after)
no_busy before req after e = omega (
  arith,
  ap (sum_of (on_worker (λ _ _. 1))) e,
  sum_of-middle (on_worker (λ _ _. 1)) before (busy req) after,
)

both_written_stuck : (t : Stream ℕ) → ¬ Move 2 hundred_more both_written.last t
unfolding fill submit opening take_request respond collect answer pop_done write_out release
    close_demux
both_written_stuck t (read d _ _ _) = cc
both_written_stuck t (read_end d _ _ _) = cc
both_written_stuck t (leave_head d _) = cc
both_written_stuck t (acquire d _ _) = cc
both_written_stuck t (leave_acquire d _) = cc
both_written_stuck t (put d _) = cc
both_written_stuck t (start_work before after ws q) = cc
both_written_stuck t (end_work before req after ws) = no_busy before req after ws
both_written_stuck t (drain on q) = cc
both_written_stuck t (drain_end on _ _ _) = cc
both_written_stuck t (pop p _ _) = cc
both_written_stuck t (write p) = cc
both_written_stuck t (all_written p _ _ _ _) = cc
both_written_stuck t (give_up p _) = cc

job_terminates_example :
    (k : ℕ) × (u : Stream ℕ) × Steps 2 hundred_more second_first.last k u
    × Returned u.writer
    × (steps_of 2 hundred_more second_first.reach + k ≤ 9 * 2 + 3)
unfolding fill submit opening take_request respond collect answer
job_terminates_example =
    job_terminates 2 hundred_more (omega arith) (omega arith) second_first.reach refl

-- Three faces for two sources: the third is like the first source.
abbrev three_faces : Similar ℤ
three_faces = record {
  targets = 3;
  n_sources = 2;
  sim = λ i j. if (i + j) % 2 == 0 then pos 800 else pos 100;
  order = (0, 0) ∷ (1, 1) ∷ (2, 0) ∷ (0, 1) ∷ (1, 0) ∷ (2, 1) ∷ [];
  argmax = λ i. i % 2;
}

three_matches : match_faces_to_sources three_faces (pos 250) ≡ (0, 0) ∷ (1, 1) ∷ (2, 0) ∷ []
unfolding match_faces_to_sources claim_pairs leftovers
three_matches = refl

match_faces_to_sources-Fair_example :
    ((i : ℕ) → times i (match_faces_to_sources three_faces (pos 250)) ≤ 1)
    × All (Clear three_faces (pos 250)) (match_faces_to_sources three_faces (pos 250))
match_faces_to_sources-Fair_example = match_faces_to_sources-Fair three_faces (pos 250) ℤ-IsIeee
