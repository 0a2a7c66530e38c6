-- ===== src/Server/Streaming.antt =====
-- server/worker.py, `run_streaming`: a reader thread, a detecting thread, the swapping loop of the
-- caller and a writer thread, joined by three bounded queues. `Moves` has their steps. The stop flag
-- of a job is set by this function alone.
pub mod Moves
pub mod Shape
pub mod Intake
pub mod Outflow
pub mod Order
pub mod Waits
pub mod Ends
pub mod Samples
use face_swap_streamer_versi.Prelude.{
  ℕ, zero, suc, ◌+◌, ◌≢◌, Bool, true, false, not, ◌&&◌, ◌==◌, if◌then◌else◌, List, [], ◌∷◌, ◌++◌,
  String,
}
use face_swap_streamer_versi.Floats.{Floats}
use face_swap_streamer_versi.Server.Worker.{Result, ok, raise}

-- What a queue holds: an item, or the marker END.
pub data Item (A : Type 0) : Type 0 where
  item : A → Item A
  end : Item A

-- Where `_reader_loop` stands.
pub data Reader (A : Type 0) : Type 0 where
  reading : Reader A  -- head of the loop
  offering : (frame : A) → Reader A  -- in read_q.put(fr)
  closing : Reader A  -- in read_q.put(END)
  gone : Reader A

-- Where `_detect_loop` stands; `P` are the picks of a frame.
pub data Detector (A P : Type 0) : Type 0 where
  taking : Detector A P  -- in read_q.get()
  passing : (frame : A) (picks : P) → Detector A P  -- in detect_q.put((frame, picks))
  closing : Detector A P  -- in detect_q.put(END)
  gone : Detector A P

-- Where `_writer_loop` stands.
pub data Writer (A : Type 0) : Type 0 where
  collecting : Writer A  -- in write_q.get()
  writing : (frame : A) → Writer A  -- before ffmpeg.stdin.write
  discarding : Writer A  -- in the inner loop
  gone : Writer A

-- How the loop of the caller is left.
pub data Ending : Type 0 where
  finished : Ending  -- by END
  pipe_broken : Ending
  raised : (text : String) → Ending

-- The statements of the `finally` block, in order, and what is after it.
pub data Phase : Type 0 where
  flagging emptying_read emptying_detect stopping joining_writer joining_detect joining_reader
        ended :
      Phase

-- Where the caller stands.
pub data Main (A : Type 0) : Type 0 where
  heading : Main A  -- head of the loop
  checking : Main A  -- before `if broken`
  waiting : Main A  -- in detect_q.get()
  sending : (frame : A) → Main A  -- swapped, before the second `if broken`
  putting : (frame : A) → Main A  -- in write_q.put
  leaving : Phase → Ending → Main A

pub record Line (A P : Type 0) : Type 0 where
  pub source : List A  -- what cap.read() has still to give
  pub read_q : List (Item A)
  pub detect_q : List (Item (A × P))
  pub write_q : List (Item A)
  pub reader : Reader A
  pub detector : Detector A P
  pub main : Main A
  pub writer : Writer A
  pub n : ℕ
  pub swap_count : ℕ
  pub current_frame : ℕ  -- job.current_frame
  pub shown_swaps : ℕ  -- job.swap_count
  pub written : List A  -- the frames ffmpeg has taken
  pub broken : Bool
  pub stop_flag : Bool
  pub detector_error : Bool  -- the detecting thread has died of an exception

-- The state in which the threads start.
pub opening : {A P : Type 0} → List A → Line A P
opening frames = record {
  source = frames;
  read_q = [];
  detect_q = [];
  write_q = [];
  reader = reading;
  detector = taking;
  main = heading;
  writer = collecting;
  n = 0;
  swap_count = 0;
  current_frame = 0;
  shown_swaps = 0;
  written = [];
  broken = false;
  stop_flag = false;
  detector_error = false;
}

-- The models: the faces of a frame, their similarities to the sources, the best source of a face
-- by numpy's argmax, and the pasting of a source onto a face.
pub record Nets (W A F : Type 0) : Type 0 where
  pub get_faces : A → Result (List F)
  pub sim : F → ℕ → W
  pub argmax : F → ℕ
  pub paste : A → F → ℕ → Result A

module _ {W A F : Type 0} ⦃f : Floats W⦄ (nets : Nets W A F) (reference_thresh : W) where
  -- The loop over the faces in `_detect_loop`.
  pub pick_faces : List F → List (F × ℕ)
  pick_faces [] = []
  pick_faces (tface ∷ rest) =
      let picks = pick_faces rest in
      let si = nets.argmax tface in
      if f.le reference_thresh (nets.sim tface si) then (tface, si) ∷ picks else picks

  -- The body of `_detect_loop` on a frame.
  pub detect_frame : A → Result (List (F × ℕ))
  unfolding pick_faces
  detect_frame frame = elim (nets.get_faces frame) [
    | raise e ↦ raise e
    | ok tgt_faces ↦ ok (pick_faces tgt_faces)
  ]

  -- The caller's loop over the picks: the frame, and the swaps made.
  pub swap_from : ℕ → A → List (F × ℕ) → Result (A × ℕ)
  swap_from k frame [] = ok (frame, k)
  swap_from k frame ((tface, si) ∷ rest) = elim (nets.paste frame tface si) [
    | raise e ↦ raise e
    | ok frame' ↦ swap_from (suc k) frame' rest
  ]

  pub swap_picks : A → List (F × ℕ) → Result (A × ℕ)
  unfolding swap_from
  swap_picks frame picks = swap_from 0 frame picks

-- How ffmpeg.wait(timeout=60) ends.
pub data Exit : Type 0 where
  timed_out : Exit
  exited : (code : ℕ) → Exit
  killed : (signal : ℕ) → Exit  -- by a signal: the return code is its negation

-- ffmpeg has ended with a return code that is not 0.
unfoldable pub Failure : Exit → Type 0
Failure timed_out = ⊥
Failure (exited code) = code ≢ 0
Failure (killed signal) = Unit

-- ffmpeg.wait and the test of its return code; `log` is the text made of ffmpeg's log. An error of
-- the remuxing after it is only printed.
pub close_up : Bool → Exit → String → Result (Unit {0})
close_up broken timed_out log = raise "ffmpeg did not exit in time"
close_up broken (exited code) log = if not (code == 0) && not broken then raise log else ok tt
close_up broken (killed signal) log = if not broken then raise log else ok tt

-- What follows the `finally` block.
pub finalise : Ending → Bool → Exit → String → Result (Unit {0})
unfolding close_up
finalise (raised e) broken exit log = raise e
finalise finished broken exit log = close_up broken exit log
finalise pipe_broken broken exit log = close_up broken exit log
