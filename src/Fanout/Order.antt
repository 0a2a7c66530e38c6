-- ===== src/Fanout/Order.antt =====
-- What ffmpeg is given, as an invariant: the frames of the video, swapped, in their order.
pub mod Steps
use face_swap_streamer_versi.Prelude.{
  ℕ, zero, suc, ◌≡◌, refl, ap, ap₂, sym, subst, ◌∙◌, List, [], ◌∷◌, ◌++◌, Option, none, some,
  String, drop, take, map, map-snoc, All, All-append, update, nat_eq, drop-head, take-next, hit,
  hit_self, sum_of, sum_of-middle, sum_of-snoc, All-middle, All-at, All-insert, All-erase,
  All-lookup, arith, inl, inr, Option-cases, replicate,
}
use face_swap_streamer_versi.Fanout.{
  Swapped, swapped, raised, Swapped-cases, SwapRequest, SwapWorker, idle, busy, Demux, reading, got,
  filled, closed, Stream, fill, submit, release, opening, close_demux, take_request, respond,
  answer, collect, pop_done, write_out, break_pipe,
}
use face_swap_streamer_versi.Fanout.Moves.{
  Move, read, read_end, leave_head, acquire, leave_acquire, put, start_work, end_work, drain,
  drain_end, lost, pop, write, break, all_written, give_up, stop, pause, Fault, Reach, start, moved,
  failed, signalled,
}
use face_swap_streamer_versi.Fanout.Ledger.{on_worker}
use face_swap_streamer_versi.Fanout.Slots.{Accounts, Reach-Accounts}
use face_swap_streamer_versi.Fanout.Contents.{
  Fetched, Answered, Stored, Working, Handing, Writing, Contents, Contents-apart,
}

pub update_self : {A : Type 0} (f : ℕ → A) (i : ℕ) (a : A) → update f i a i ≡ a
update_self f i a = ground arith

module _ {A : Type 0} (process : A → Swapped A) where
  -- What a frame becomes, and how many of its faces are swapped.
  abbrev pub image_of : A → A
  image_of f = elim (process f) [ swapped g n ↦ g | raised g e ↦ g ]

  abbrev pub faces_of : A → ℕ
  faces_of f = elim (process f) [ swapped g n ↦ n | raised g e ↦ 0 ]

  pub image_of-swapped : (f : A) {g : A} {n : ℕ} → process f ≡ swapped g n → image_of f ≡ g
  image_of-swapped f e = rw (e, image_of) refl

  pub faces_of-swapped : (f : A) {g : A} {n : ℕ} → process f ≡ swapped g n → faces_of f ≡ n
  faces_of-swapped f e = rw (e, faces_of) refl

  module _ (frames : List A) where
    -- How far the demultiplexer has read.
    abbrev pub Ahead : Demux A → ℕ → List A → Type 0
    Ahead reading k rest = drop k frames ≡ rest
    Ahead (got f) k rest = drop k frames ≡ f ∷ rest
    Ahead (filled r) k rest = drop k frames ≡ rest
    Ahead closed k rest = Unit

    pub record Ordered (s : Stream A) : Type 0 where
      pub contents : Contents process frames s.slots s
      pub ahead : Ahead s.demux s.dispatched s.source
      pub out : s.written ≡ map image_of (take s.next_to_write frames)
      pub faces : s.swap_count ≡ sum_of faces_of (take s.next_to_write frames)

    pub opening-Ordered :
        (n_workers n_slots : ℕ) (slots : ℕ → A) → Ordered (opening n_workers n_slots slots frames)
    unfolding opening
    opening-Ordered n_workers n_slots slots = record {
      contents = (tt, tt, replicate-All n_workers, tt, tt, tt);
      ahead = refl;
      out = refl;
      faces = refl;
    }
      where
        replicate-All : (n : ℕ) → All (Working process frames slots) (replicate n idle)
        replicate-All zero = tt
        replicate-All (suc n) = (tt, replicate-All n)

  module _ (frames : List A) {n_slots : ℕ} where
    pub answer-Ordered :
        {s : Stream A}
        → Accounts n_slots s
        → (before : List SwapWorker) (req : SwapRequest) (after : List SwapWorker) (frame : A)
          (n : ℕ) (error : Option String)
        → s.workers ≡ before ++ busy req ∷ after
        → (error ≡ none → process (s.slots req.slot_id) ≡ swapped frame n)
        → Ordered frames s
        → Ordered frames (answer before req after frame n error s)
    unfolding answer
    answer-Ordered {s} inv before req after frame n error ws made o =
        let (h, i, w, a, dn, wr) = o.contents in
        let working = subst (All (Working process frames s.slots)) ws w in
        let fetched = All-at (Working process frames s.slots) before (busy req) after working in
        let slots = update s.slots req.slot_id frame in
        let (h', i', w', a', dn', wr') =
          Contents-apart process frames s.slots req.slot_id frame
            (record s { workers = before ++ idle ∷ after })
            (omega (
              arith,
              inv.held_once req.slot_id,
              hit_self req.slot_id,
              ap (sum_of (on_worker (λ k j. hit req.slot_id j))) ws,
              sum_of-middle (on_worker (λ k j. hit req.slot_id j)) before idle after,
              sum_of-middle (on_worker (λ k j. hit req.slot_id j)) before (busy req) after,
            ))
            (
              h,
              i,
              All-middle (Working process frames s.slots) before (busy req) idle after tt working,
              a,
              dn,
              wr,
            ) in
        record {
          contents = (
            h',
            i',
            w',
            All-append (Answered process frames slots) s.out_q _ a' (
              (λ fine. (
                s.slots req.slot_id,
                fetched,
                made fine ∙ ap (λ g. swapped g n) (sym (update_self s.slots req.slot_id frame)),
              )),
              tt,
            ),
            dn',
            wr',
          );
          ahead = o.ahead;
          out = o.out;
          faces = o.faces;
        }
