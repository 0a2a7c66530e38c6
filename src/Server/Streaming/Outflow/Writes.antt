-- ===== src/Server/Streaming/Outflow/Writes.antt =====
-- The steps of the writer.
use face_swap_streamer_versi.Prelude.{
  ℕ, ◌≡◌, refl, ap, sym, ◌∙◌, Bool, true, false, ◌&&◌, List, [], ◌∷◌, ◌++◌, append_assoc,
}
use face_swap_streamer_versi.Server.Worker.{Result}
use face_swap_streamer_versi.Server.Streaming.{
  Item, item, end, Writer, collecting, writing, discarding, Main,
}
use face_swap_streamer_versi.Server.Streaming.Shape.{queue, queue-head, queue-end}
use face_swap_streamer_versi.Server.Streaming.Outflow.{
  Outflow, flight, hand, hand-past_end, past_end, and_true, writer_alive,
}

module _ {A P : Type 0} (detect : A → Result P) (swap : A → P → Result (A × ℕ)) (frames : List A)
    {n swap_count : ℕ} {written : List A} {write_q : List (Item A)} {m : Main A} where
  pub fetch-Outflow :
      {g : A} {broken : Bool}
      → Outflow detect swap frames n swap_count written (item g ∷ write_q) m collecting broken
      → Outflow detect swap frames n swap_count written write_q m (writing g) broken
  fetch-Outflow {g} o =
      let (rest, e, shape) = queue-head o.queued _ (sym o.shape) in
      record {
        queued = rest;
        lost = o.lost;
        shape = shape;
        left = λ q. cc;
        knows = o.knows;
        out = ap (λ xs. written ++ ((xs ++ hand m) ++ o.lost)) (sym e) ∙ o.out;
        clean = o.clean;
        counted = o.counted;
      }

  -- END is the last entry, and the caller's hand is empty.
  last_end :
      {w : Writer A} {broken : Bool}
      → (o : Outflow detect swap frames n swap_count written (end ∷ write_q) m w broken)
      → writer_alive w ≡ true
      → (o.queued ≡ []) × (past_end m ≡ true) × (write_q ≡ [])
  last_end o on =
      let (q, p, rest) = queue-end o.queued _ (sym o.shape) in
      (q, and_true (past_end m) (ap (λ b. past_end m && b) (sym on) ∙ p), rest)

  pub fetch_end-Outflow :
      {broken : Bool}
      → Outflow detect swap frames n swap_count written (end ∷ write_q) m collecting broken
      → Outflow detect swap frames n swap_count written write_q m Writer.gone broken
  fetch_end-Outflow o =
      let (q, past, rest) = last_end o refl in
      record {
        queued = [];
        lost = o.lost;
        shape = rest ∙ sym (ap (λ b. queue [] (b && false)) past);
        left = λ _. (past, refl);
        knows = tt;
        out =
            sym (
              ap (λ xs. written ++ ((xs ++ hand m) ++ o.lost)) q
              ∙ ap (λ h. written ++ (h ++ o.lost)) (hand-past_end m past))
            ∙ o.out;
        clean = o.clean;
        counted = o.counted;
      }

  pub write-Outflow :
      {g : A} {broken : Bool}
      → Outflow detect swap frames n swap_count written write_q m (writing g) broken
      → Outflow detect swap frames n swap_count (written ++ g ∷ []) write_q m collecting broken
  write-Outflow {g} o = record {
    queued = o.queued;
    lost = o.lost;
    shape = o.shape;
    left = λ q. cc;
    knows = o.knows;
    out = append_assoc written (g ∷ []) _ ∙ o.out;
    clean = o.clean;
    counted = o.counted;
  }

  pub break-Outflow :
      {g : A} {broken : Bool}
      → Outflow detect swap frames n swap_count written write_q m (writing g) broken
      → Outflow detect swap frames n swap_count written write_q m discarding true
  break-Outflow {g} o = record {
    queued = o.queued;
    lost = flight (writing g) o.queued (hand m) ++ o.lost;
    shape = o.shape;
    left = λ q. cc;
    knows = refl;
    out = o.out;
    clean = λ q. cc;
    counted = o.counted;
  }

  pub discard-Outflow :
      {g : A} {broken : Bool}
      → Outflow detect swap frames n swap_count written (item g ∷ write_q) m discarding broken
      → Outflow detect swap frames n swap_count written write_q m discarding broken
  discard-Outflow {g} o =
      let (rest, e, shape) = queue-head o.queued _ (sym o.shape) in
      record {
        queued = rest;
        lost = o.lost;
        shape = shape;
        left = λ q. cc;
        knows = o.knows;
        out = o.out;
        clean = o.clean;
        counted = o.counted;
      }

  pub discard_end-Outflow :
      {broken : Bool}
      → Outflow detect swap frames n swap_count written (end ∷ write_q) m discarding broken
      → Outflow detect swap frames n swap_count written write_q m Writer.gone broken
  discard_end-Outflow o =
      let (q, past, rest) = last_end o refl in
      record {
        queued = [];
        lost = o.lost;
        shape = rest ∙ sym (ap (λ b. queue [] (b && false)) past);
        left = λ _. (past, refl);
        knows = tt;
        out = o.out;
        clean = o.clean;
        counted = o.counted;
      }
