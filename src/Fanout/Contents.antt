-- ===== src/Fanout/Contents.antt =====
-- What the slots hold: the frames as they were read, and as the workers left them.
use face_swap_streamer_versi.Prelude.{
  ℕ, ◌≡◌, sym, subst, List, none, some, get_elem?, All, update, nat_eq, hit, All-weightless, arith,
}
use face_swap_streamer_versi.Fanout.{
  Swapped, swapped, SwapRequest, SwapResponse, Entry, SwapWorker, idle, busy, Demux, reading, got,
  filled, closed, Writer, polling, writing, complete, quit, Stream,
}
use face_swap_streamer_versi.Fanout.Ledger.{
  flight, on_request, on_response, on_entry, on_worker, on_demux, on_writer,
}

module _ {A : Type 0} (process : A → Swapped A) (frames : List A) where
  module _ (slots : ℕ → A) where
    -- The slot of a request holds the frame of its index.
    abbrev pub Fetched : SwapRequest → Type 0
    Fetched r = get_elem? frames r.frame_idx ≡ some (slots r.slot_id)

    -- A slot holds what a worker made of a frame.
    abbrev pub Finished : ℕ → ℕ → ℕ → Type 0
    Finished k slot n =
        (f : A) × (get_elem? frames k ≡ some f) × (process f ≡ swapped (slots slot) n)

    abbrev pub Answered : SwapResponse → Type 0
    Answered r = r.error ≡ none → Finished r.frame_idx r.slot_id r.n_swapped

    abbrev pub Stored : ℕ × Entry → Type 0
    Stored (k, e) = Finished k e.slot_id e.n_swapped

    abbrev pub Working : SwapWorker → Type 0
    Working idle = Unit
    Working (busy r) = Fetched r

    abbrev pub Handing : Demux A → Type 0
    Handing (filled r) = Fetched r
    Handing _ = Unit

    abbrev pub Writing : ℕ → Writer → Type 0
    Writing next (writing e) = Finished next e.slot_id e.n_swapped
    Writing next _ = Unit

    abbrev pub Contents : Stream A → Type 0
    Contents s =
        Handing s.demux
        × All Fetched s.in_q
        × All Working s.workers
        × All Answered s.out_q
        × All Stored s.done
        × Writing s.next_to_write s.writer

  -- A slot that nothing in flight uses may take any frame.
  module _ (slots : ℕ → A) (slot : ℕ) (frame : A) where
    apart : (j : ℕ) → hit slot j ≡ 0 → update slots slot frame j ≡ slots j
    apart j h = ground arith

    Fetched-apart :
        (r : SwapRequest)
        → hit slot r.slot_id ≡ 0
        → Fetched slots r
        → Fetched (update slots slot frame) r
    Fetched-apart r h f =
        subst (λ x. get_elem? frames r.frame_idx ≡ some x) (sym (apart r.slot_id h)) f

    Finished-apart :
        (k j n : ℕ)
        → hit slot j ≡ 0
        → Finished slots k j n
        → Finished (update slots slot frame) k j n
    Finished-apart k j n h (f, at, p) =
        (f, at, subst (λ x. process f ≡ swapped x n) (sym (apart j h)) p)

    Working-apart :
        (x : SwapWorker)
        → on_worker (λ k j. hit slot j) x ≡ 0
        → Working slots x
        → Working (update slots slot frame) x
    Working-apart idle h f = tt
    Working-apart (busy r) h f = Fetched-apart r h f

    Handing-apart :
        (x : Demux A)
        → on_demux (λ k j. hit slot j) x ≡ 0
        → Handing slots x
        → Handing (update slots slot frame) x
    Handing-apart (filled r) h f = Fetched-apart r h f
    Handing-apart reading h f = tt
    Handing-apart (got _) h f = tt
    Handing-apart closed h f = tt

    Writing-apart :
        (k : ℕ) (x : Writer)
        → on_writer (λ k j. hit slot j) k x ≡ 0
        → Writing slots k x
        → Writing (update slots slot frame) k x
    Writing-apart k (writing e) h f = Finished-apart k e.slot_id e.n_swapped h f
    Writing-apart k polling h f = tt
    Writing-apart k complete h f = tt
    Writing-apart k quit h f = tt

    pub Contents-apart :
        (s : Stream A)
        → flight (λ k j. hit slot j) s ≡ 0
        → Contents slots s
        → Contents (update slots slot frame) s
    Contents-apart s light (in_hand, queued, worked, answered, stored, written) = (
      Handing-apart s.demux (omega arith) in_hand,
      All-weightless (on_request (λ k j. hit slot j)) Fetched-apart s.in_q (omega arith) queued,
      All-weightless (on_worker (λ k j. hit slot j)) Working-apart s.workers (omega arith) worked,
      All-weightless (on_response (λ k j. hit slot j))
          (λ r h a fine. Finished-apart r.frame_idx r.slot_id r.n_swapped h (a fine)) s.out_q
          (omega arith) answered,
      All-weightless (on_entry (λ k j. hit slot j))
          (λ (k, e) h a. Finished-apart k e.slot_id e.n_swapped h a) s.done (omega arith) stored,
      Writing-apart s.next_to_write s.writer (omega arith) written,
    )
