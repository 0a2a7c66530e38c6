-- ===== src/Fanout/Ledger.antt =====
-- The slots of the frame pool and the frames in flight, weighed: what each step does to their sums.
use face_swap_streamer_versi.Prelude.{
  ℕ, suc, ◌+◌, ◌≤◌, ◌≡◌, refl, ap, Bool, true, false, not, ◌||◌, List, [], ◌∷◌, ◌++◌, Option, none,
  some, String, nat_eq, hit, sum_of, sum_of-middle, sum_of-snoc, sum_of-insert, sum_of-erase, arith,
  inl, inr, ◌⊎◌, Option-cases, hit_self,
}
use face_swap_streamer_versi.Fanout.{
  Swapped, SwapRequest, SwapResponse, Entry, SwapWorker, idle, busy, Demux, filled, Writer, writing,
  Stream, any_error, fill, submit, release, answer, Swapped-cases, close_demux, take_request,
  respond, collect, pop_done, write_out, break_pipe,
}
use face_swap_streamer_versi.Fanout.Moves.{
  Move, read, read_end, leave_head, acquire, leave_acquire, put, start_work, end_work, drain,
  drain_end, lost, pop, write, break, all_written, give_up, Signal, Fault, stop, pause,
}

module _ (w : ℕ → ℕ → ℕ) where
  abbrev pub on_request : SwapRequest → ℕ
  on_request r = w r.frame_idx r.slot_id

  abbrev pub on_response : SwapResponse → ℕ
  on_response r = w r.frame_idx r.slot_id

  abbrev pub on_entry : ℕ × Entry → ℕ
  on_entry (k, e) = w k e.slot_id

  abbrev pub on_worker : SwapWorker → ℕ
  on_worker idle = 0
  on_worker (busy r) = on_request r

  abbrev pub on_demux : {A : Type 0} → Demux A → ℕ
  on_demux (filled r) = on_request r
  on_demux _ = 0

  abbrev pub on_writer : ℕ → Writer → ℕ
  on_writer next (writing e) = w next e.slot_id
  on_writer next _ = 0

  -- What the frames in flight weigh, each by its index and its slot.
  abbrev pub flight : {A : Type 0} → Stream A → ℕ
  flight s =
      on_demux s.demux
      + sum_of on_request s.in_q
      + sum_of on_worker s.workers
      + sum_of on_response s.out_q
      + sum_of on_entry s.done
      + on_writer s.next_to_write s.writer

pub any_error-snoc : (es : List String) (e : String) → any_error (es ++ e ∷ []) ≡ true
any_error-snoc [] e = refl
any_error-snoc (x ∷ es) e = refl

erring : (es : List String) (e : String) (b : Bool) → not (any_error (es ++ e ∷ []) || b) ≡ false
erring es e b = rw (any_error-snoc es e) refl

impossible : {b c : Bool} → b ≡ false → b ≡ true → c ≡ true
impossible p q = cc

module _ {A : Type 0} where
  -- No worker error has been seen and ffmpeg still takes frames.
  abbrev pub clean : Stream A → Bool
  clean s = not (any_error s.worker_error || s.broken)

  -- How often a frame is in flight.
  abbrev pub carried : ℕ → Stream A → ℕ
  carried j = flight (λ k slot. hit j k)

  -- What a step does to the sums.
  pub data Effect (w : ℕ → ℕ → ℕ) (v : ℕ → ℕ) (s t : Stream A) : Type 0 where
    same :
        sum_of v t.free ≡ sum_of v s.free
        → flight w t ≡ flight w s
        → t.dispatched ≡ s.dispatched
        → t.next_to_write ≡ s.next_to_write
        → (clean t ≡ true → clean s ≡ true)
        → Effect w v s t
    took :
        (slot : ℕ)
        → sum_of v s.free ≡ v slot + sum_of v t.free
        → flight w t ≡ flight w s + w s.dispatched slot
        → t.dispatched ≡ suc s.dispatched
        → t.next_to_write ≡ s.next_to_write
        → (clean t ≡ true → clean s ≡ true)
        → Effect w v s t
    gave :
        (slot : ℕ)
        → sum_of v t.free ≡ sum_of v s.free + v slot
        → flight w s ≡ flight w t + w s.next_to_write slot
        → t.dispatched ≡ s.dispatched
        → (t.next_to_write ≡ suc s.next_to_write)
          ⊎ (t.next_to_write ≡ s.next_to_write) × (clean t ≡ false)
        → (clean t ≡ true → clean s ≡ true)
        → Effect w v s t
    dropped :
        (k slot : ℕ)
        → sum_of v t.free ≡ sum_of v s.free
        → flight w s ≡ flight w t + w k slot
        → t.dispatched ≡ s.dispatched
        → t.next_to_write ≡ s.next_to_write
        → clean t ≡ false
        → Effect w v s t

  module _ (n_slots : ℕ) (process : A → Swapped A) (w : ℕ → ℕ → ℕ) (v : ℕ → ℕ) where
    answer-Effect :
        {s : Stream A} (before : List SwapWorker) (req : SwapRequest) (after : List SwapWorker)
        (frame : A) (n : ℕ) (error : Option String)
        → s.workers ≡ before ++ busy req ∷ after
        → Effect w v s (answer before req after frame n error s)
    unfolding answer
    answer-Effect {s} before req after frame n error ws =
        same refl
          (omega (
            arith,
            ap (sum_of (on_worker w)) ws,
            sum_of-middle (on_worker w) before idle after,
            sum_of-middle (on_worker w) before (busy req) after,
            sum_of-snoc (on_response w) s.out_q (record {
              frame_idx = req.frame_idx;
              slot_id = req.slot_id;
              n_swapped = n;
              error = error;
            }),
          ))
          refl refl (λ h. h)

    pub Move-Effect :
        {s t : Stream A} → ((j : ℕ) → carried j s ≤ 1) → Move n_slots process s t → Effect w v s t
    unfolding fill submit close_demux take_request pop_done write_out break_pipe release respond
        collect
    Move-Effect once (read d _ _ src) =
        same refl (omega (arith, ap (on_demux w) d)) refl refl (λ h. h)
    Move-Effect once (read_end d _ _ _) =
        same refl (omega (arith, ap (on_demux w) d)) refl refl (λ h. h)
    Move-Effect once (leave_head d _) =
        same refl (omega (arith, ap (on_demux w) d)) refl refl (λ h. h)
    Move-Effect once (acquire {slot} d _ free) =
        took slot (ap (sum_of v) free) (omega (arith, ap (on_demux w) d)) refl refl (λ h. h)
    Move-Effect once (leave_acquire d _) =
        same refl (omega (arith, ap (on_demux w) d)) refl refl (λ h. h)
    Move-Effect {s} once (put {req} d _) =
        same refl (omega (arith, ap (on_demux w) d, sum_of-snoc (on_request w) s.in_q req)) refl
          refl (λ h. h)
    Move-Effect once (start_work before after {req} {rest} ws q) =
        same refl
          (omega (
            arith,
            ap (sum_of (on_worker w)) ws,
            ap (sum_of (on_request w)) q,
            sum_of-middle (on_worker w) before idle after,
            sum_of-middle (on_worker w) before (busy req) after,
          ))
          refl refl (λ h. h)
    Move-Effect {s} once (end_work before req after ws) =
        elim (Swapped-cases (process (s.slots req.slot_id))) [
          | inl (frame, n, e) ↦ rw (e, respond) (answer-Effect before req after frame n none ws)
          | inr (frame, text, e) ↦
              rw (e, respond) (answer-Effect before req after frame 0 (some text) ws)
        ]
    Move-Effect {s} once (drain {resp} {rest} on q) = elim (Option-cases resp.error) [
      | inl e ↦
          rw (e, collect)
            (same refl
              (omega (
                arith,
                ap (sum_of (on_response w)) q,
                sum_of-insert (on_entry w) resp.frame_idx
                    (record { slot_id = resp.slot_id; n_swapped = resp.n_swapped }) s.done
                    (omega (
                      arith,
                      once resp.frame_idx,
                      hit_self resp.frame_idx,
                      ap (sum_of (on_response (λ k slot. hit resp.frame_idx k))) q,
                    )),
              ))
              refl refl (λ h. h))
      | inr (text, e) ↦
          rw (e, collect)
            (dropped resp.frame_idx resp.slot_id refl (omega (arith, ap (sum_of (on_response w)) q))
              refl refl (erring s.worker_error text s.broken))
    ]
    Move-Effect once (drain_end _ _ _ _) = same refl refl refl refl (λ h. h)
    Move-Effect {s} once (pop {entry} p _ found) =
        same refl
          (omega (
            arith,
            ap (on_writer w s.next_to_write) p,
            sum_of-erase (on_entry w) s.next_to_write entry s.done found
                (omega (arith, once s.next_to_write)),
          ))
          refl refl (λ h. h)
    Move-Effect {s} once (write {entry} p) =
        gave entry.slot_id (sum_of-snoc v s.free entry.slot_id)
          (omega (arith, ap (on_writer w s.next_to_write) p)) refl (inl refl) (λ h. h)
    Move-Effect {s} once (all_written p _ _ _ _) =
        same refl (omega (arith, ap (on_writer w s.next_to_write) p)) refl refl (λ h. h)
    Move-Effect {s} once (give_up p _) =
        same refl (omega (arith, ap (on_writer w s.next_to_write) p)) refl refl (λ h. h)

    pub Fault-Effect : {s t : Stream A} → Fault n_slots process s t → Effect w v s t
    unfolding break_pipe release
    Fault-Effect {s} (lost text _ _) =
        same refl refl refl refl (impossible (erring s.worker_error text s.broken))
    Fault-Effect {s} (break {entry} p) =
        gave entry.slot_id (sum_of-snoc v s.free entry.slot_id)
          (omega (arith, ap (on_writer w s.next_to_write) p)) refl (inr (refl, ground arith))
          (λ h. ground arith)

    pub Signal-Effect : {s t : Stream A} → Signal n_slots process s t → Effect w v s t
    Signal-Effect stop = same refl refl refl refl (λ h. h)
    Signal-Effect (pause on) = same refl refl refl refl (λ h. h)
