-- ===== src/Fanout/Order/Steps.antt =====
-- Every step keeps the order of what ffmpeg is given.
use face_swap_streamer_versi.Prelude.{
  ℕ, ◌≡◌, ap, ap₂, sym, subst, ◌∙◌, List, [], ◌∷◌, ◌++◌, none, some, take, map, map-snoc, All,
  All-append, nat_eq, drop-head, take-next, hit, hit_self, sum_of, sum_of-snoc, All-middle,
  All-insert, All-erase, All-lookup, arith, inl, inr, Option-cases,
}
use face_swap_streamer_versi.Fanout.{
  Swapped, Swapped-cases, idle, busy, Stream, fill, submit, release, close_demux, take_request,
  respond, collect, pop_done, write_out, break_pipe,
}
use face_swap_streamer_versi.Fanout.Moves.{
  Move, read, read_end, leave_head, acquire, leave_acquire, put, start_work, end_work, drain,
  drain_end, lost, pop, write, break, all_written, give_up, stop, pause, Fault, Reach, start, moved,
  failed, signalled, idled,
}
use face_swap_streamer_versi.Fanout.Slots.{Accounts, Reach-Accounts}
use face_swap_streamer_versi.Fanout.Contents.{
  Fetched, Answered, Stored, Working, Handing, Writing, Contents-apart,
}
use face_swap_streamer_versi.Fanout.Order.{
  Ordered, Ahead, image_of, faces_of, image_of-swapped, faces_of-swapped, opening-Ordered,
  answer-Ordered, update_self,
}

module _ {A : Type 0} (process : A → Swapped A) where
  module _ (frames : List A) {n_slots : ℕ} where
    Move-Ordered :
        {s t : Stream A}
        → Accounts n_slots s
        → Move n_slots process s t
        → Ordered process frames s
        → Ordered process frames t
    unfolding fill submit close_demux take_request pop_done write_out break_pipe release respond
        collect
    Move-Ordered {s} inv (read d _ _ src) o =
        let (h, i, w, a, dn, wr) = o.contents in
        record {
          contents = (tt, i, w, a, dn, wr);
          ahead = subst (λ x. Ahead process frames x s.dispatched s.source) d o.ahead ∙ src;
          out = o.out;
          faces = o.faces;
        }
    Move-Ordered inv (read_end d _ _ src) o =
        let (h, i, w, a, dn, wr) = o.contents in
        record { contents = (tt, i, w, a, dn, wr); ahead = tt; out = o.out; faces = o.faces }
    Move-Ordered inv (leave_head d _) o =
        let (h, i, w, a, dn, wr) = o.contents in
        record { contents = (tt, i, w, a, dn, wr); ahead = tt; out = o.out; faces = o.faces }
    Move-Ordered {s} inv (acquire {frame} {slot} {rest} d _ free) o =
        let (at, ahead) =
          drop-head s.dispatched frames
            (subst (λ x. Ahead process frames x s.dispatched s.source) d o.ahead) in
        let (h, i, w, a, dn, wr) =
          Contents-apart process frames s.slots slot frame s
            (omega (arith, inv.held_once slot, ap (sum_of (hit slot)) free, hit_self slot))
            o.contents in
        record {
          contents = (at ∙ ap some (sym (update_self s.slots slot frame)), i, w, a, dn, wr);
          ahead = ahead;
          out = o.out;
          faces = o.faces;
        }
    Move-Ordered inv (leave_acquire d _) o =
        let (h, i, w, a, dn, wr) = o.contents in
        record { contents = (tt, i, w, a, dn, wr); ahead = tt; out = o.out; faces = o.faces }
    Move-Ordered {s} inv (put {req} d _) o =
        let (h, q, w, a, dn, wr) = o.contents in
        record {
          contents = (
            tt,
            All-append (Fetched process frames s.slots) s.in_q (req ∷ []) q
                (subst (Handing process frames s.slots) d h, tt),
            w,
            a,
            dn,
            wr,
          );
          ahead = subst (λ x. Ahead process frames x s.dispatched s.source) d o.ahead;
          out = o.out;
          faces = o.faces;
        }
    Move-Ordered {s} inv (start_work before after {req} ws q) o =
        let (h, i, w, a, dn, wr) = o.contents in
        let (r, i') = subst (All (Fetched process frames s.slots)) q i in
        record {
          contents = (
            h,
            i',
            All-middle (Working process frames s.slots) before idle (busy req) after r
                (subst (All (Working process frames s.slots)) ws w),
            a,
            dn,
            wr,
          );
          ahead = o.ahead;
          out = o.out;
          faces = o.faces;
        }
    Move-Ordered {s} inv (end_work before req after ws) o =
        elim (Swapped-cases (process (s.slots req.slot_id))) [
          | inl (frame, n, e) ↦
              rw (e, respond)
                (answer-Ordered process frames inv before req after frame n none ws (λ _. e) o)
          | inr (frame, text, e) ↦
              rw (e, respond)
                (answer-Ordered process frames inv before req after frame 0 (some text) ws (λ q. cc)
                  o)
        ]
    Move-Ordered {s} inv (drain {resp} {rest} on q) o = elim (Option-cases resp.error) [
      | inl e ↦
          let (h, i, w, a, dn, wr) = o.contents in
          let (ready, a') = subst (All (Answered process frames s.slots)) q a in
          rw (e, collect)
            (record {
              contents = (
                h,
                i,
                w,
                a',
                All-insert (Stored process frames s.slots) resp.frame_idx
                    (record { slot_id = resp.slot_id; n_swapped = resp.n_swapped }) s.done (ready e)
                    dn,
                wr,
              );
              ahead = o.ahead;
              out = o.out;
              faces = o.faces;
            })
      | inr (text, e) ↦
          let (h, i, w, a, dn, wr) = o.contents in
          rw (e, collect)
            (record {
              contents = (h, i, w, (subst (All (Answered process frames s.slots)) q a).1, dn, wr);
              ahead = o.ahead;
              out = o.out;
              faces = o.faces;
            })
    ]
    Move-Ordered inv (drain_end _ _ _ _) o = record {
      contents = o.contents;
      ahead = o.ahead;
      out = o.out;
      faces = o.faces;
    }
    Move-Ordered {s} inv (pop {entry} p _ found) o =
        let (h, i, w, a, dn, wr) = o.contents in
        record {
          contents = (
            h,
            i,
            w,
            a,
            All-erase (Stored process frames s.slots) s.next_to_write s.done dn,
            All-lookup (Stored process frames s.slots) s.next_to_write entry s.done found dn,
          );
          ahead = o.ahead;
          out = o.out;
          faces = o.faces;
        }
    Move-Ordered {s} inv (write {entry} p) o =
        let (h, i, w, a, dn, wr) = o.contents in
        let (f, at, made) = subst (Writing process frames s.slots s.next_to_write) p wr in
        record {
          contents = (h, i, w, a, dn, tt);
          ahead = o.ahead;
          out =
              ap₂ (λ xs x. xs ++ x ∷ []) o.out (sym (image_of-swapped process f made))
              ∙ sym (map-snoc (image_of process) (take s.next_to_write frames) f)
              ∙ ap (map (image_of process)) (sym (take-next s.next_to_write frames at));
          faces = omega (
            arith,
            o.faces,
            faces_of-swapped process f made,
            sum_of-snoc (faces_of process) (take s.next_to_write frames) f,
            ap (sum_of (faces_of process)) (take-next s.next_to_write frames at),
          );
        }
    Move-Ordered inv (all_written p _ _ _ _) o =
        let (h, i, w, a, dn, wr) = o.contents in
        record { contents = (h, i, w, a, dn, tt); ahead = o.ahead; out = o.out; faces = o.faces }
    Move-Ordered inv (give_up p _) o =
        let (h, i, w, a, dn, wr) = o.contents in
        record { contents = (h, i, w, a, dn, tt); ahead = o.ahead; out = o.out; faces = o.faces }

    Fault-Ordered :
        {s t : Stream A}
        → Fault n_slots process s t
        → Ordered process frames s
        → Ordered process frames t
    unfolding break_pipe release
    Fault-Ordered (lost _ _ _) o = record {
      contents = o.contents;
      ahead = o.ahead;
      out = o.out;
      faces = o.faces;
    }
    Fault-Ordered (break {entry} p) o =
        let (h, i, w, a, dn, wr) = o.contents in
        record { contents = (h, i, w, a, dn, tt); ahead = o.ahead; out = o.out; faces = o.faces }

    pub Reach-Ordered :
        {n_workers : ℕ} {slots : ℕ → A} {s : Stream A}
        → Reach n_slots process n_workers slots frames s
        → Ordered process frames s
    Reach-Ordered {n_workers} {slots} start = opening-Ordered process frames n_workers n_slots slots
    Reach-Ordered (moved r mv) =
        Move-Ordered (Reach-Accounts n_slots process r) mv (Reach-Ordered r)
    Reach-Ordered (failed r f) = Fault-Ordered f (Reach-Ordered r)
    Reach-Ordered (signalled r stop) =
        let o = Reach-Ordered r in
        record { contents = o.contents; ahead = o.ahead; out = o.out; faces = o.faces }
    Reach-Ordered (signalled r (pause _)) =
        let o = Reach-Ordered r in
        record { contents = o.contents; ahead = o.ahead; out = o.out; faces = o.faces }
    Reach-Ordered (idled r _) = Reach-Ordered r

  -- Whatever the order in which the workers answer, and whatever is stopped, paused or lost on the
  -- way: what ffmpeg has been given is always the first `next_to_write` frames of the video, each
  -- swapped, in the order of the video, and `swap_count` is the number of faces swapped in them.
  pub written_in_order :
      {n_slots n_workers : ℕ} {slots : ℕ → A} {frames : List A} {s : Stream A}
      → Reach n_slots process n_workers slots frames s
      → (s.written ≡ map (image_of process) (take s.next_to_write frames))
        × (s.swap_count ≡ sum_of (faces_of process) (take s.next_to_write frames))
  written_in_order {frames} r = let o = Reach-Ordered frames r in (o.out, o.faces)
