-- ===== src/Runner/Samples.antt =====
-- Runner: a video of three frames, in which only a lower sharpening keeps a face from flickering.
use face_swap_streamer_versi.Prelude.{
  ℕ, ◌≡◌, refl, true, false, [], ◌∷◌, some, arith, if◌then◌else◌,
}
use face_swap_streamer_versi.Floats.Fixed.{ℤ, pos, fixed_floats, ℤ-IsIeee}
use face_swap_streamer_versi.Matching.{Box}
use face_swap_streamer_versi.Runner.{FoundFace, Engine, RunConfig, Runner}
use face_swap_streamer_versi.Runner.Attempts.{first_try, process_with_retry}
use face_swap_streamer_versi.Runner.Attempts.Verdicts.{Sound, process_with_retry-Sound}
use face_swap_streamer_versi.Runner.Frames.{frame_loop, execute_frames}
use face_swap_streamer_versi.Runner.Frames.Log.{
  logged, mark, flicker_gauge, frame_loop-logged, resume_repeats,
}

abbrev square : Box ℤ
square = record { x1 = pos 0; y1 = pos 0; x2 = pos 9000; y2 = pos 9000 }

abbrev face : FoundFace ℤ ℕ
face = record { bbox = square; kps = 5 }

-- A picture is the sharpening that it was made with.
abbrev pub engine : Engine ℤ ℤ ℕ Unit
engine = record {
  scene_strength = λ s i. s;
  swap = λ i c si color sharpen strength. sharpen;
  crop_of = λ i c. some (record { crop = i; kps = 5; bbox = square });
  components = λ i p c. ("color", if fixed_floats.lt (pos 300) i then pos 900 else pos 50) ∷ [];
  detect = λ i. face ∷ [];
  detect_large = λ i. [];
  detect_near = λ b i. [];
  match_faces = λ t k found. ((face, 0) ∷ [], t);
  top = pos 1000000;
  bottom = pos 0;
  duration = λ k. pos 20;
  round = λ x k. x;
  vram = λ k. 1024;
}

abbrev pub cfg : RunConfig ℤ
cfg = record {
  max_strength = pos 700;
  max_delta = pos 50;
  weights = (pos 0, pos 1000, pos 0, pos 0, pos 0);
  restoration_enabled = true;
  checkpoint_every = 2;
  max_retry = 3;
}

abbrev pub runner : Runner ℤ ℤ ℕ Unit
runner = record {
  prev = (0, record { crop = pos 0; kps = 5; bbox = square }) ∷ [];
  prev_strength = [];
  last_bbox = [];
  matcher = tt;
  had_manual_review = false;
  reliability = record {
    slo_target = pos 995;
    total = 0;
    succeeded = 0;
    failed = 0;
    manual_review = 0;
    retries = 0;
  };
  metrics = record { counters = []; gauges = []; histograms = [] };
  quality = [];
  images = [];
  checkpoints = [];
}

process_with_retry-Sound_example :
    Sound engine cfg 0
      (first_try engine cfg (pos 1) ((face, 0) ∷ []) (pos 420) runner).flicker
      (process_with_retry engine cfg (pos 1) ((face, 0) ∷ []) 0 (pos 420) runner).0
process_with_retry-Sound_example =
    process_with_retry-Sound engine cfg ℤ-IsIeee (pos 1) ((face, 0) ∷ []) 0 (pos 420) runner

frame_loop-logged_example :
    (logged engine cfg (frame_loop engine cfg (pos 1 ∷ pos 2 ∷ pos 3 ∷ []) 0 runner)
      ≡ 0 ∷ 1 ∷ 2 ∷ [])
    × ((frame_loop engine cfg (pos 1 ∷ pos 2 ∷ pos 3 ∷ []) 0 runner).checkpoints
        ≡ mark engine cfg (flicker_gauge engine cfg runner) 2 ∷ [])
    × (flicker_gauge engine cfg (frame_loop engine cfg (pos 1 ∷ pos 2 ∷ pos 3 ∷ []) 0 runner)
        ≡ flicker_gauge engine cfg runner)
frame_loop-logged_example = frame_loop-logged engine cfg (pos 1 ∷ pos 2 ∷ pos 3 ∷ []) 0 runner

-- Dead after three frames of four, and resumed from the checkpoint after two.
resume_repeats_example :
    logged engine cfg (
      execute_frames engine cfg
        (pos 1 ∷ pos 2 ∷ pos 3 ∷ pos 4 ∷ [])
        2
        (execute_frames engine cfg (pos 1 ∷ pos 2 ∷ pos 3 ∷ []) 0 runner))
    ≡ 0 ∷ 1 ∷ 2 ∷ 2 ∷ 3 ∷ []
resume_repeats_example =
    resume_repeats engine cfg (pos 1 ∷ pos 2 ∷ pos 3 ∷ pos 4 ∷ []) 3 2 runner
      (execute_frames engine cfg (pos 1 ∷ pos 2 ∷ pos 3 ∷ []) 0 runner) (omega arith) (omega arith)
      refl
