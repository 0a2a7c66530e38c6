-- ===== src/Server/Streaming/Order.antt =====
-- What ffmpeg is given by run_streaming, and how its loop is left.
pub mod Steps
pub mod Kept
pub mod Video
use face_swap_streamer_versi.Prelude.{
  ℕ, ◌≡◌, refl, Bool, true, false, List, [], some, drop, get_elem?,
}
use face_swap_streamer_versi.Server.Worker.{Result, ok, raise}
use face_swap_streamer_versi.Server.Streaming.{
  Ending, finished, pipe_broken, raised, Main, leaving, Line, opening,
}
use face_swap_streamer_versi.Server.Streaming.Intake.{Intake, opening-Intake}
use face_swap_streamer_versi.Server.Streaming.Outflow.{Outflow, opening-Outflow}

abbrev pub InLoop : {A : Type 0} → Main A → Type 0
InLoop (leaving p e) = ⊥
InLoop _ = Unit

module _ {A P : Type 0} (detect : A → Result P) (swap : A → P → Result (A × ℕ))
    (frames : List A) where
  -- The loop is left by END after the last frame, unless the detecting thread has died; by a broken
  -- pipe; or by what the swapping of a frame of the video has raised.
  abbrev pub Justifies : Ending → ℕ → Bool → Bool → Type 0
  Justifies finished n broken error = error ≡ false → drop n frames ≡ []
  Justifies pipe_broken n broken error = broken ≡ true
  Justifies (raised text) n broken error =
      (k : ℕ) × (f : A) × (p : P) × (get_elem? frames k ≡ some f)
      × (detect f ≡ ok p)
      × (swap f p ≡ raise text)

  abbrev pub Justified : Main A → ℕ → Bool → Bool → Type 0
  Justified (leaving p e) = Justifies e
  Justified _ = λ _ _ _. Unit

  pub record Ordered (s : Line A P) : Type 0 where
    pub up :
        InLoop s.main
        → Intake detect frames s.n s.source s.read_q s.detect_q s.reader s.detector s.detector_error
    pub out :
        Outflow detect swap frames s.n s.swap_count s.written s.write_q s.main s.writer s.broken
    pub just : Justified s.main s.n s.broken s.detector_error
    pub unstopped : InLoop s.main → s.stop_flag ≡ false

  pub opening-Ordered : Ordered (opening frames)
  unfolding opening
  opening-Ordered = record {
    up = λ _. opening-Intake detect frames;
    out = opening-Outflow detect swap frames;
    just = tt;
    unstopped = λ _. refl;
  }

  pub Justified-break :
      (m : Main A) (n : ℕ) (broken error : Bool)
      → Justified m n broken error
      → Justified m n true error
  Justified-break (leaving p finished) n broken error j = j
  Justified-break (leaving p pipe_broken) n broken error j = refl
  Justified-break (leaving p (raised text)) n broken error j = j
  Justified-break Main.heading n broken error j = tt
  Justified-break Main.checking n broken error j = tt
  Justified-break Main.waiting n broken error j = tt
  Justified-break (Main.sending g) n broken error j = tt
  Justified-break (Main.putting g) n broken error j = tt

  pub Justified-raise :
      (m : Main A) (n : ℕ) (broken error : Bool)
      → Justified m n broken error
      → Justified m n broken true
  Justified-raise (leaving p finished) n broken error j = λ q. cc
  Justified-raise (leaving p pipe_broken) n broken error j = j
  Justified-raise (leaving p (raised text)) n broken error j = j
  Justified-raise Main.heading n broken error j = tt
  Justified-raise Main.checking n broken error j = tt
  Justified-raise Main.waiting n broken error j = tt
  Justified-raise (Main.sending g) n broken error j = tt
  Justified-raise (Main.putting g) n broken error j = tt
