-- ===== src/Server/Streaming/Outflow.antt =====
-- The caller's hand, the write queue and the writer: what has been swapped and is on its way.
pub mod Writes
use face_swap_streamer_versi.Prelude.{
  ℕ, suc, ◌+◌, ◌≡◌, refl, ap, sym, subst, ◌∙◌, Bool, true, false, ◌&&◌, List, [], ◌∷◌, ◌++◌, some,
  map, map-snoc, append_assoc, append_nil, take, take-next, get_elem?, String, inl, inr, Bool-cases,
  sum_of, sum_of-snoc, arith,
}
use face_swap_streamer_versi.Server.Worker.{Result, ok, raise}
use face_swap_streamer_versi.Server.Streaming.{
  Item, item, end, Writer, collecting, writing, discarding, Ending, finished, pipe_broken, raised,
  Phase, flagging, emptying_read, emptying_detect, stopping, joining_writer, joining_detect,
  joining_reader, ended, Main, heading, checking, waiting, sending, putting, leaving,
}
use face_swap_streamer_versi.Server.Streaming.Shape.{
  queue, queue-head, queue-end, queue-snoc, queue-close,
}

abbrev pub Calm : Ending → Type 0
Calm (raised e) = ⊥
Calm finished = Unit
Calm pipe_broken = Unit

and_true : (b : Bool) → (b && true) ≡ true → b ≡ true
and_true b h = ground arith

module _ {A : Type 0} where
  abbrev pub writer_alive : Writer A → Bool
  writer_alive Writer.gone = false
  writer_alive _ = true

  -- Only a writer that has met a broken pipe discards.
  abbrev Knows : Writer A → Bool → Type 0
  Knows collecting broken = broken ≡ false
  Knows (writing g) broken = broken ≡ false
  Knows discarding broken = broken ≡ true
  Knows Writer.gone broken = Unit

  -- The caller has put END into the write queue.
  abbrev pub past_end : Main A → Bool
  past_end (leaving joining_writer e) = true
  past_end (leaving joining_detect e) = true
  past_end (leaving joining_reader e) = true
  past_end (leaving ended e) = true
  past_end _ = false

  -- The loop has not been left by an exception.
  abbrev pub Unraised : Main A → Type 0
  Unraised (leaving p e) = Calm e
  Unraised _ = Unit

  abbrev pub hand : Main A → List A
  hand (sending g) = g ∷ []
  hand (putting g) = g ∷ []
  hand _ = []

  hand-past_end : (m : Main A) → past_end m ≡ true → hand m ≡ []
  hand-past_end (leaving p e) h = refl
  hand-past_end heading h = refl
  hand-past_end checking h = refl
  hand-past_end waiting h = refl
  hand-past_end (sending g) h = absurd (cc)
  hand-past_end (putting g) h = absurd (cc)

  -- What is on its way to ffmpeg, by what the queue holds and what the caller does.
  abbrev pub flight : Writer A → List A → List A → List A
  flight collecting queued h = queued ++ h
  flight (writing g) queued h = g ∷ (queued ++ h)
  flight _ queued h = []

  -- One more frame is on its way, or it is lost with the others.
  one_more :
      (written queued lost : List A) (g : A) (w : Writer A) {broken : Bool}
      → Knows w broken
      → (broken ≡ false → lost ≡ [])
      → writer_alive w ≡ true
      → (lost' : List A) × (written ++ (flight w queued (g ∷ []) ++ lost')
          ≡ (written ++ (flight w queued [] ++ lost)) ++ g ∷ [])
        × (broken ≡ false → lost' ≡ [])
  one_more written queued lost g collecting k clean on =
      ([], simp (clean k, append_assoc, append_nil), λ _. refl)
  one_more written queued lost g (writing x) k clean on =
      ([], simp (clean k, append_assoc, append_nil), λ _. refl)
  one_more written queued lost g discarding k clean on =
      (lost ++ g ∷ [], sym (append_assoc written lost (g ∷ [])), λ fine. cc)
  one_more written queued lost g Writer.gone k clean on = absurd (cc)

  module _ {P : Type 0} (detect : A → Result P) (swap : A → P → Result (A × ℕ)) where
    -- What becomes of a frame, and how many of its faces are swapped.
    abbrev pub image_of : A → A
    image_of f = elim (detect f) [
      | raise e ↦ f
      | ok p ↦ elim (swap f p) [ raise e ↦ f | ok (g, k) ↦ g ]
    ]

    abbrev pub faces_of : A → ℕ
    faces_of f = elim (detect f) [
      | raise e ↦ 0
      | ok p ↦ elim (swap f p) [ raise e ↦ 0 | ok (g, k) ↦ k ]
    ]

    module _ (frames : List A) where
      pub record Outflow (n swap_count : ℕ) (written : List A) (write_q : List (Item A))
          (m : Main A) (w : Writer A) (broken : Bool) : Type 0 where
        pub queued : List A
        pub lost : List A
        pub shape : write_q ≡ queue queued (past_end m && writer_alive w)
        pub left : writer_alive w ≡ false → (past_end m ≡ true) × (queued ≡ [])
        pub knows : Knows w broken
        pub out : written ++ (flight w queued (hand m) ++ lost) ≡ map image_of (take n frames)
        pub clean : broken ≡ false → Unraised m → lost ≡ []
        pub counted : Unraised m → swap_count ≡ sum_of faces_of (take n frames)

      pub opening-Outflow : Outflow 0 0 [] [] heading collecting false
      opening-Outflow = record {
        queued = [];
        lost = [];
        shape = refl;
        left = λ q. cc;
        knows = refl;
        out = refl;
        clean = λ _ _. refl;
        counted = λ _. refl;
      }

      image-next :
          (n : ℕ) {f : A}
          → get_elem? frames n ≡ some f
          → map image_of (take (suc n) frames) ≡ map image_of (take n frames) ++ image_of f ∷ []
      image-next n {f} at =
          ap (map image_of) (take-next n frames at) ∙ map-snoc image_of (take n frames) f

      module _ {n swap_count : ℕ} {written : List A} {write_q : List (Item A)} where
        -- A step of the caller that moves no frame.
        pub step-Outflow :
            {m m' : Main A} {w : Writer A} {broken : Bool}
            → hand m ≡ hand m'
            → past_end m ≡ past_end m'
            → (Unraised m' → Unraised m)
            → Outflow n swap_count written write_q m w broken
            → Outflow n swap_count written write_q m' w broken
        step-Outflow {w} same_hand same_past calm o = record {
          queued = o.queued;
          lost = o.lost;
          shape = o.shape ∙ ap (λ b. queue o.queued (b && writer_alive w)) same_past;
          left = λ off. let (p, q) = o.left off in (sym same_past ∙ p, q);
          knows = o.knows;
          out = ap (λ h. written ++ (flight w o.queued h ++ o.lost)) (sym same_hand) ∙ o.out;
          clean = λ fine u. o.clean fine (calm u);
          counted = λ u. o.counted (calm u);
        }

        Outflow-alive :
            {m : Main A} {w : Writer A} {broken : Bool}
            → past_end m ≡ false
            → Outflow n swap_count written write_q m w broken
            → writer_alive w ≡ true
        Outflow-alive {m} {w} before o = elim (Bool-cases (writer_alive w)) [
          | inl on ↦ on
          | inr off ↦ absurd (cc ((o.left off).0, before))
        ]

        -- A frame is swapped.
        pub get-Outflow :
            {f g : A} {p : P} {k : ℕ} {w : Writer A} {broken : Bool}
            → get_elem? frames n ≡ some f
            → detect f ≡ ok p
            → swap f p ≡ ok (g, k)
            → Outflow n swap_count written write_q waiting w broken
            → Outflow (suc n) (swap_count + k) written write_q (sending g) w broken
        get-Outflow {f} {g} {p} {k} {w} {broken} at found made o = record {
          queued = o.queued;
          lost = joined.0;
          shape = o.shape;
          left = o.left;
          knows = o.knows;
          out = joined.1 ∙ ap (λ xs. xs ++ g ∷ []) o.out ∙ sym next;
          clean = λ fine u. joined.2 fine;
          counted = λ u. omega (
            arith,
            o.counted u,
            ap (sum_of faces_of) (take-next n frames at),
            sum_of-snoc faces_of (take n frames) f,
            faces,
          );
        }
          where
            joined :
                (lost' : List A) × (written ++ (flight w o.queued (g ∷ []) ++ lost')
                  ≡ (written ++ (flight w o.queued [] ++ o.lost)) ++ g ∷ [])
                × (broken ≡ false → lost' ≡ [])
            joined =
                one_more written o.queued o.lost g w o.knows (λ fine. o.clean fine tt)
                  (Outflow-alive refl o)

            next : map image_of (take (suc n) frames) ≡ map image_of (take n frames) ++ g ∷ []
            next =
                image-next n at
                ∙ ap (λ x. map image_of (take n frames) ++ x ∷ []) (rw (found, image_of, made) refl)

            faces : faces_of f ≡ k
            faces = rw (found, faces_of, made) refl

        -- The swapping of a frame has raised.
        pub get_raise-Outflow :
            {f : A} {text : String} {w : Writer A} {broken : Bool}
            → get_elem? frames n ≡ some f
            → Outflow n swap_count written write_q waiting w broken
            → Outflow (suc n) swap_count written write_q (leaving flagging (raised text)) w broken
        get_raise-Outflow {f} {w} at o = record {
          queued = o.queued;
          lost = o.lost ++ image_of f ∷ [];
          shape = o.shape;
          left = o.left;
          knows = o.knows;
          out =
              ap (λ xs. written ++ xs) (sym (append_assoc (flight w o.queued []) o.lost _))
              ∙ sym (append_assoc written (flight w o.queued [] ++ o.lost) _)
              ∙ ap (λ xs. xs ++ image_of f ∷ []) o.out
              ∙ sym (image-next n at);
          clean = λ fine u. absurd u;
          counted = λ u. absurd u;
        }

        pub send_broken-Outflow :
            {g : A} {w : Writer A} {broken : Bool}
            → broken ≡ true
            → Outflow n swap_count written write_q (sending g) w broken
            → Outflow n swap_count written write_q (leaving flagging pipe_broken) w broken
        send_broken-Outflow {g} {w} {broken} gave_way o = record {
          queued = o.queued;
          lost = o.lost;
          shape = o.shape;
          left = o.left;
          knows = o.knows;
          out = dropped w o.knows ∙ o.out;
          clean = λ fine u. absurd (cc (fine, gave_way));
          counted = o.counted;
        }
          where
            dropped :
                (w : Writer A)
                → Knows w broken
                → written ++ (flight w o.queued [] ++ o.lost)
                  ≡ written ++ (flight w o.queued (hand (sending g)) ++ o.lost)
            dropped collecting k = absurd (cc (k, gave_way))
            dropped (writing x) k = absurd (cc (k, gave_way))
            dropped discarding k = refl
            dropped Writer.gone k = refl

        pub put-Outflow :
            {g : A} {w : Writer A} {broken : Bool}
            → Outflow n swap_count written write_q (putting g) w broken
            → Outflow n swap_count written (write_q ++ item g ∷ []) heading w broken
        put-Outflow {g} {w} o = record {
          queued = o.queued ++ g ∷ [];
          lost = o.lost;
          shape = ap (λ q. q ++ item g ∷ []) o.shape ∙ queue-snoc o.queued g;
          left = λ off. absurd (cc (Outflow-alive refl o));
          knows = o.knows;
          out = queued_up w o.queued ∙ o.out;
          clean = o.clean;
          counted = o.counted;
        }
          where
            queued_up :
                (w : Writer A) (queued : List A)
                → written ++ (flight w (queued ++ g ∷ []) [] ++ o.lost)
                  ≡ written ++ (flight w queued (g ∷ []) ++ o.lost)
            queued_up collecting queued = simp append_nil
            queued_up (writing x) queued = simp append_nil
            queued_up discarding queued = refl
            queued_up Writer.gone queued = refl

        pub put_end-Outflow :
            {e : Ending} {w : Writer A} {broken : Bool}
            → Outflow n swap_count written write_q (leaving stopping e) w broken
            → Outflow n swap_count written (write_q ++ end ∷ []) (leaving joining_writer e) w broken
        put_end-Outflow {e} {w} o = record {
          queued = o.queued;
          lost = o.lost;
          shape =
              ap (λ q. q ++ end ∷ []) o.shape
              ∙ queue-close o.queued
              ∙ sym (ap (queue o.queued) (Outflow-alive refl o));
          left = λ off. absurd (cc (Outflow-alive refl o));
          knows = o.knows;
          out = o.out;
          clean = o.clean;
          counted = o.counted;
        }
