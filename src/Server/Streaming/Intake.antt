-- ===== src/Server/Streaming/Intake.antt =====
-- The reading and the detecting thread while the caller is in its loop: what is still to come of
-- the video lies in the two queues and in the hands of the threads, in order.
use face_swap_streamer_versi.Prelude.{
  ℕ, suc, ◌≡◌, refl, ap, ap₂, sym, subst, ◌∙◌, Bool, true, false, ◌&&◌, List, [], ◌∷◌, ◌++◌, some,
  map, map-snoc, append_assoc, drop, drop-head, get_elem?, All, All-append, inl, inr, Bool-cases,
}
use face_swap_streamer_versi.Server.Worker.{Result, ok}
use face_swap_streamer_versi.Server.Streaming.{
  Item, item, end, Reader, reading, offering, Detector, taking, passing,
}
use face_swap_streamer_versi.Server.Streaming.Shape.{
  queue, queue-head, queue-end, queue-snoc, queue-close,
}

module _ {A : Type 0} where
  abbrev pub reader_gone : Reader A → Bool
  reader_gone Reader.gone = true
  reader_gone _ = false

  -- The reader may still read.
  abbrev pub reader_open : Reader A → Bool
  reader_open reading = true
  reader_open (offering f) = true
  reader_open _ = false

  abbrev read_hand : Reader A → List A
  read_hand (offering f) = f ∷ []
  read_hand _ = []

module _ {A P : Type 0} where
  abbrev pub detector_gone : Detector A P → Bool
  detector_gone Detector.gone = true
  detector_gone _ = false

  -- The detecting thread may still take a frame.
  abbrev pub listening : Detector A P → Bool
  listening taking = true
  listening (passing f p) = true
  listening _ = false

  abbrev detect_hand : Detector A P → List A
  detect_hand (passing f p) = f ∷ []
  detect_hand _ = []

  module _ (detect : A → Result P) where
    abbrev Detected : A × P → Type 0
    Detected (f, p) = detect f ≡ ok p

    abbrev Handing : Detector A P → Type 0
    Handing (passing f p) = detect f ≡ ok p
    Handing _ = Unit

  -- What the detecting thread has still to get, while it is well.
  pub record Ahead (source : List A) (read_q : List (Item A)) (r : Reader A) (d : Detector A P)
      (tail : List A) : Type 0 where
    pub queued : List A
    pub shape : read_q ≡ queue queued (listening d && reader_gone r)
    pub order : tail ≡ detect_hand d ++ (queued ++ (read_hand r ++ source))
    pub drained : listening d ≡ false → (queued ≡ []) × (reader_gone r ≡ true)

  module _ {source : List A} {read_q : List (Item A)} {d : Detector A P} {tail : List A} where
    pub read-Ahead :
        {f : A} → Ahead (f ∷ source) read_q reading d tail → Ahead source read_q (offering f) d tail
    read-Ahead a = record {
      queued = a.queued;
      shape = a.shape;
      order = a.order;
      drained = a.drained;
    }

    pub read_end-Ahead :
        Ahead source read_q reading d tail → Ahead source read_q Reader.closing d tail
    read_end-Ahead a = record {
      queued = a.queued;
      shape = a.shape;
      order = a.order;
      drained = a.drained;
    }

    -- While the reader is not gone, the detecting thread listens and the queue has no END.
    Ahead-open :
        (r : Reader A)
        → reader_gone r ≡ false
        → (a : Ahead source read_q r d tail)
        → (listening d ≡ true) × (read_q ≡ queue a.queued false)
    Ahead-open r still a = elim (Bool-cases (listening d)) [
      | inl on ↦ (on, a.shape ∙ ap₂ (λ b c. queue a.queued (b && c)) on still)
      | inr off ↦ absurd (cc ((a.drained off).1, still))
    ]

    pub offer-Ahead :
        {f : A}
        → Ahead source read_q (offering f) d tail
        → Ahead source (read_q ++ item f ∷ []) reading d tail
    offer-Ahead {f} a =
        let (on, shape) = Ahead-open (offering f) refl a in
        record {
          queued = a.queued ++ f ∷ [];
          shape =
              ap (λ q. q ++ item f ∷ []) shape
              ∙ queue-snoc a.queued f
              ∙ sym (ap (λ b. queue (a.queued ++ f ∷ []) (b && false)) on);
          order =
              a.order
              ∙ ap (λ xs. detect_hand d ++ xs) (sym (append_assoc a.queued (f ∷ []) source));
          drained = λ off. cc;
        }

    pub close_read-Ahead :
        Ahead source read_q Reader.closing d tail
        → Ahead source (read_q ++ end ∷ []) Reader.gone d tail
    close_read-Ahead a =
        let (on, shape) = Ahead-open Reader.closing refl a in
        record {
          queued = a.queued;
          shape =
              ap (λ q. q ++ end ∷ []) shape
              ∙ queue-close a.queued
              ∙ sym (ap (λ b. queue a.queued (b && true)) on);
          order = a.order;
          drained = λ off. cc;
        }

  -- After END there is nothing to come.
  Ahead-done :
      {source : List A} {read_q : List (Item A)} (r : Reader A) (d : Detector A P) {tail : List A}
      → detector_gone d ≡ true
      → (reader_open r ≡ false → source ≡ [])
      → Ahead source read_q r d tail
      → tail ≡ []
  Ahead-done Reader.gone Detector.gone g close a =
      a.order ∙ ap₂ ◌++◌ (a.drained refl).0 (close refl)
  Ahead-done reading Detector.gone g close a = absurd (cc ((a.drained refl).1))
  Ahead-done (offering f) Detector.gone g close a = absurd (cc ((a.drained refl).1))
  Ahead-done Reader.closing Detector.gone g close a = absurd (cc ((a.drained refl).1))
  Ahead-done r taking g close a = absurd (cc)
  Ahead-done r (passing f p) g close a = absurd (cc)
  Ahead-done r Detector.closing g close a = absurd (cc)

  module _ (detect : A → Result P) (frames : List A) where
    pub record Intake (n : ℕ) (source : List A) (read_q : List (Item A))
        (detect_q : List (Item (A × P))) (r : Reader A) (d : Detector A P) (error : Bool)
        : Type 0 where
      pub found : List (A × P)
      pub tail : List A
      pub shape : detect_q ≡ queue found (detector_gone d)
      pub detected : All (Detected detect) found
      pub handing : Handing detect d
      pub order : drop n frames ≡ map (λ x. x.0) found ++ tail
      pub ahead : error ≡ false → Ahead source read_q r d tail
      pub healthy : listening d ≡ true → error ≡ false
      pub exhausted : reader_open r ≡ false → source ≡ []

    pub opening-Intake : Intake 0 frames [] [] reading taking false
    opening-Intake = record {
      found = [];
      tail = frames;
      shape = refl;
      detected = tt;
      handing = tt;
      order = refl;
      ahead = λ _. record { queued = []; shape = refl; order = refl; drained = λ q. cc };
      healthy = λ _. refl;
      exhausted = λ q. cc;
    }

    module _ {n : ℕ} {detect_q : List (Item (A × P))} {error : Bool} where
      -- A step of the reader.
      pub reader-Intake :
          {source source' : List A} {read_q read_q' : List (Item A)} {r r' : Reader A}
          {d : Detector A P}
          → ((tail : List A) → Ahead source read_q r d tail → Ahead source' read_q' r' d tail)
          → ((reader_open r ≡ false → source ≡ []) → reader_open r' ≡ false → source' ≡ [])
          → Intake n source read_q detect_q r d error
          → Intake n source' read_q' detect_q r' d error
      reader-Intake step close i = record {
        found = i.found;
        tail = i.tail;
        shape = i.shape;
        detected = i.detected;
        handing = i.handing;
        order = i.order;
        ahead = λ well. step i.tail (i.ahead well);
        healthy = i.healthy;
        exhausted = close i.exhausted;
      }

      module _ {source : List A} {read_q : List (Item A)} where
        pub take-Intake :
            {r : Reader A} {f : A} {p : P}
            → detect f ≡ ok p
            → Intake n source (item f ∷ read_q) detect_q r taking error
            → Intake n source read_q detect_q r (passing f p) error
        take-Intake {r} {f} made i = record {
          found = i.found;
          tail = i.tail;
          shape = i.shape;
          detected = i.detected;
          handing = made;
          order = i.order;
          ahead = λ well.
              let a = i.ahead well in
              let (rest, e, shape) = queue-head a.queued _ (sym a.shape) in
              record {
                queued = rest;
                shape = shape;
                order = a.order ∙ ap (λ xs. xs ++ (read_hand r ++ source)) e;
                drained = λ q. cc;
              };
          healthy = i.healthy;
          exhausted = i.exhausted;
        }

        pub take_raise-Intake :
            {r : Reader A} {f : A}
            → Intake n source (item f ∷ read_q) detect_q r taking error
            → Intake n source read_q detect_q r Detector.closing true
        take_raise-Intake i = record {
          found = i.found;
          tail = i.tail;
          shape = i.shape;
          detected = i.detected;
          handing = tt;
          order = i.order;
          ahead = λ q. cc;
          healthy = λ q. cc;
          exhausted = i.exhausted;
        }

        pub take_end-Intake :
            {r : Reader A}
            → Intake n source (end ∷ read_q) detect_q r taking error
            → Intake n source read_q detect_q r Detector.closing error
        take_end-Intake i = record {
          found = i.found;
          tail = i.tail;
          shape = i.shape;
          detected = i.detected;
          handing = tt;
          order = i.order;
          ahead = λ well.
              let a = i.ahead well in
              let (none_left, left, rest) = queue-end a.queued _ (sym a.shape) in
              record {
                queued = a.queued;
                shape = rest ∙ sym (ap (λ xs. queue xs false) none_left);
                order = a.order;
                drained = λ _. (none_left, left);
              };
          healthy = λ q. cc;
          exhausted = i.exhausted;
        }

        pub pass-Intake :
            {r : Reader A} {f : A} {p : P}
            → Intake n source read_q detect_q r (passing f p) error
            → Intake n source read_q (detect_q ++ item (f, p) ∷ []) r taking error
        pass-Intake {f} {p} i =
            let a = i.ahead (i.healthy refl) in
            let rest = a.queued ++ (read_hand _ ++ source) in
            record {
              found = i.found ++ (f, p) ∷ [];
              tail = rest;
              shape = ap (λ q. q ++ item (f, p) ∷ []) i.shape ∙ queue-snoc i.found (f, p);
              detected = All-append (Detected detect) i.found _ i.detected (i.handing, tt);
              handing = tt;
              order =
                  i.order
                  ∙ ap (λ xs. map (λ x. x.0) i.found ++ xs) a.order
                  ∙ sym (append_assoc (map (λ x. x.0) i.found) (f ∷ []) rest)
                  ∙ ap (λ xs. xs ++ rest) (sym (map-snoc (λ x. x.0) i.found (f, p)));
              ahead = λ _. record {
                queued = a.queued;
                shape = a.shape;
                order = refl;
                drained = λ q. cc;
              };
              healthy = i.healthy;
              exhausted = i.exhausted;
            }

        pub close_detect-Intake :
            {r : Reader A}
            → Intake n source read_q detect_q r Detector.closing error
            → Intake n source read_q (detect_q ++ end ∷ []) r Detector.gone error
        close_detect-Intake i = record {
          found = i.found;
          tail = i.tail;
          shape = ap (λ q. q ++ end ∷ []) i.shape ∙ queue-close i.found;
          detected = i.detected;
          handing = tt;
          order = i.order;
          ahead = λ well.
              let a = i.ahead well in
              record { queued = a.queued; shape = a.shape; order = a.order; drained = a.drained };
          healthy = λ q. cc;
          exhausted = i.exhausted;
        }

    module _ {n : ℕ} {source : List A} {read_q : List (Item A)} {detect_q : List (Item (A × P))}
        {r : Reader A} {d : Detector A P} {error : Bool} where
      -- The frame that the caller gets is the next one of the video, with its own picks.
      pub get-Intake :
          {f : A} {p : P}
          → Intake n source read_q (item (f, p) ∷ detect_q) r d error
          → Intake (suc n) source read_q detect_q r d error
            × (get_elem? frames n ≡ some f)
            × (detect f ≡ ok p)
      get-Intake {f} {p} i =
          let (rest, e, shape) = queue-head i.found _ (sym i.shape) in
          let (at, next) =
            drop-head n frames (i.order ∙ ap (λ xs. map (λ x. x.0) xs ++ i.tail) e) in
          let all = subst (All (Detected detect)) e i.detected in
          (
            record {
              found = rest;
              tail = i.tail;
              shape = shape;
              detected = all.1;
              handing = i.handing;
              order = next;
              ahead = i.ahead;
              healthy = i.healthy;
              exhausted = i.exhausted;
            },
            at,
            all.0,
          )

      -- END comes after the last frame, unless the detecting thread has died.
      pub end-Intake :
          Intake n source read_q (end ∷ detect_q) r d error
          → (detector_gone d ≡ true) × (error ≡ false → drop n frames ≡ [])
      end-Intake i =
          let (none_found, left, rest) = queue-end i.found _ (sym i.shape) in
          (
            left,
            λ well.
                i.order
                ∙ ap₂ (λ xs ys. map (λ x. x.0) xs ++ ys) none_found
                    (Ahead-done r d left i.exhausted (i.ahead well)),
          )
