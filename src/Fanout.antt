-- ===== src/Fanout.antt =====
-- webapp_mp.py, `_run_job`, from the frame pool to the join of its threads, with the main loop of
-- server/swap_worker.py: a demultiplexer thread reads the video and copies each frame into a slot
-- of shared memory, worker processes swap faces in place, a drainer thread collects the answers in
-- whatever order they come, and a writer thread sends the frames to ffmpeg in order.
pub mod Moves
pub mod Ledger
pub mod Slots
pub mod Contents
pub mod Order
pub mod Threads
pub mod Progress
pub mod Outcome
pub mod Ends
pub mod Faces
pub mod Samples
use face_swap_streamer_versi.Prelude.{
  count_up, ℕ, zero, suc, ◌+◌, ◌≡◌, refl, ◌⊎◌, inl, inr, Bool, true, false, ◌||◌, if◌then◌else◌,
  List, [], ◌∷◌, ◌++◌, Option, none, some, String, Dict, insert, erase, nat_eq, replicate, update,
}

-- What a worker makes of a frame: the frame in its slot and the number of faces swapped, or an
-- exception with the state it left the slot in.
pub data Swapped (A : Type 0) : Type 0 where
  swapped : (frame : A) (n_swapped : ℕ) → Swapped A
  raised : (frame : A) (text : String) → Swapped A

pub Swapped-cases :
    {A : Type 0} (p : Swapped A)
    → ((f : A) × (n : ℕ) × (p ≡ swapped f n)) ⊎ ((f : A) × (e : String) × (p ≡ raised f e))
Swapped-cases (swapped f n) = inl (f, n, refl)
Swapped-cases (raised f e) = inr (f, e, refl)

-- The `end` marker is sent only after the threads have been joined.
pub record SwapRequest : Type 0 where
  pub frame_idx : ℕ
  pub slot_id : ℕ

pub record SwapResponse : Type 0 where
  pub frame_idx : ℕ
  pub slot_id : ℕ
  pub n_swapped : ℕ
  pub error : Option String

-- An entry of `done`.
pub record Entry : Type 0 where
  pub slot_id : ℕ
  pub n_swapped : ℕ

pub data SwapWorker : Type 0 where
  idle : SwapWorker  -- in in_q.get()
  busy : (req : SwapRequest) → SwapWorker

-- Where `_demux_loop` stands.
pub data Demux (A : Type 0) : Type 0 where
  reading : Demux A  -- head of the loop
  got : (frame : A) → Demux A  -- in the loop around pool.acquire
  filled : (req : SwapRequest) → Demux A  -- before in_q.put
  closed : Demux A  -- returned, all_dispatched set

-- Where `_writer_loop` stands.
pub data Writer : Type 0 where
  polling : Writer  -- head of the loop
  writing : (entry : Entry) → Writer  -- before ffmpeg.stdin.write
  complete : Writer  -- returned, "all frames written"
  quit : Writer  -- returned on a stop, an error or a broken pipe

pub record Stream (A : Type 0) : Type 0 where
  pub source : List A  -- what cap.read() has still to give
  pub free : List ℕ  -- pool._free
  pub slots : ℕ → A  -- the shared memory
  pub in_q : List SwapRequest
  pub workers : List SwapWorker
  pub out_q : List SwapResponse
  pub done : Dict ℕ Entry
  pub dispatched : ℕ  -- len(dispatch_ts)
  pub collected : ℕ
  pub next_to_write : ℕ
  pub swap_count : ℕ
  pub written : List A  -- the frames ffmpeg has taken
  pub demux : Demux A
  pub draining : Bool
  pub writer : Writer
  pub broken : Bool
  pub worker_error : List String
  pub stop_flag : Bool
  pub pause_flag : Bool

abbrev pub any_error : List String → Bool
any_error [] = false
any_error (e ∷ es) = true

module _ {A : Type 0} where
  abbrev pub halted : Stream A → Bool
  halted s = s.stop_flag || any_error s.worker_error

  -- FramePool.acquire, the copy into the slot and the time stamp.
  pub fill : A → ℕ → List ℕ → Stream A → Stream A
  fill frame slot rest s = record s {
    free = rest;
    slots = update s.slots slot frame;
    dispatched = suc s.dispatched;
    demux = filled (record { frame_idx = s.dispatched; slot_id = slot });
  }

  -- in_q.put
  pub submit : SwapRequest → Stream A → Stream A
  submit req s = record s { in_q = s.in_q ++ req ∷ []; demux = reading }

  pub close_demux : Stream A → Stream A
  close_demux s = record s { demux = closed }

  pub take_request :
      List SwapWorker → SwapRequest → List SwapWorker → List SwapRequest → Stream A → Stream A
  take_request before req after rest s = record s {
    in_q = rest;
    workers = before ++ busy req ∷ after;
  }

  -- The worker has written into the slot, and sends its SwapResponse.
  pub answer :
      List SwapWorker → SwapRequest → List SwapWorker → A → ℕ → Option String → Stream A → Stream A
  answer before req after frame n error s = record s {
    slots = update s.slots req.slot_id frame;
    workers = before ++ idle ∷ after;
    out_q =
        s.out_q
        ++ record { frame_idx = req.frame_idx; slot_id = req.slot_id; n_swapped = n; error = error }
          ∷ [];
  }

  -- The worker's work on a request.
  pub respond :
      (A → Swapped A) → List SwapWorker → SwapRequest → List SwapWorker → Stream A → Stream A
  unfolding answer
  respond process before req after s = elim (process (s.slots req.slot_id)) [
    | swapped frame n ↦ answer before req after frame n none s
    | raised frame e ↦ answer before req after frame 0 (some e) s
  ]

  -- The drainer on one response: an error ends it.
  pub collect : SwapResponse → List SwapResponse → Stream A → Stream A
  collect resp rest s = elim resp.error [
    | some e ↦ record s { out_q = rest; worker_error = s.worker_error ++ e ∷ []; draining = false }
    | none ↦ record s {
      out_q = rest;
      done =
          insert resp.frame_idx (record { slot_id = resp.slot_id; n_swapped = resp.n_swapped })
            s.done;
      collected = suc s.collected;
    }
  ]

  -- done.pop(next_to_write)
  pub pop_done : Entry → Stream A → Stream A
  pop_done entry s = record s { done = erase s.next_to_write s.done; writer = writing entry }

  -- FramePool.release
  pub release : ℕ → Stream A → Stream A
  release slot s = record s { free = s.free ++ slot ∷ [] }

  -- The frame is written, its slot recycled, and the counters go on.
  pub write_out : Entry → Stream A → Stream A
  unfolding release
  write_out entry s = record (release entry.slot_id s) {
    written = s.written ++ s.slots entry.slot_id ∷ [];
    next_to_write = suc s.next_to_write;
    swap_count = s.swap_count + entry.n_swapped;
    writer = polling;
  }

  -- BrokenPipeError
  pub break_pipe : Entry → Stream A → Stream A
  unfolding release
  break_pipe entry s = record (release entry.slot_id s) { broken = true; writer = quit }

-- The state in which the threads start.
pub opening : {A : Type 0} → ℕ → ℕ → (ℕ → A) → List A → Stream A
opening n_workers n_slots slots frames = record {
  source = frames;
  free = count_up 0 n_slots;
  slots = slots;
  in_q = [];
  workers = replicate n_workers idle;
  out_q = [];
  done = [];
  dispatched = 0;
  collected = 0;
  next_to_write = 0;
  swap_count = 0;
  written = [];
  demux = reading;
  draining = true;
  writer = polling;
  broken = false;
  worker_error = [];
  stop_flag = false;
  pause_flag = false;
}
