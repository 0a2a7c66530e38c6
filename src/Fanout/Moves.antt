-- ===== src/Fanout/Moves.antt =====
-- webapp_mp.py, `_run_job`: which thread may take which step, under the conditions of its loop.
use face_swap_streamer_versi.Prelude.{
  ℕ, ◌≤◌, ◌<◌, ◌≡◌, ◌≢◌, ◌⊎◌, Bool, true, false, ◌||◌, List, [], ◌∷◌, ◌++◌, none, some, String,
  length, lookup, nat_eq,
}
use face_swap_streamer_versi.Fanout.{
  Swapped, SwapRequest, SwapResponse, Entry, SwapWorker, idle, busy, reading, got, filled, closed,
  polling, writing, complete, quit, Stream, halted, opening, fill, submit, close_demux,
  take_request, respond, collect, pop_done, write_out, break_pipe,
}

module _ {A : Type 0} (n_slots : ℕ) (process : A → Swapped A) where
  -- One step of one thread or worker.
  pub data Move (s : Stream A) : Stream A → Type 0 where
    read :
        {frame : A} {rest : List A}
        → s.demux ≡ reading
        → (halted s || s.broken) ≡ false
        → s.pause_flag ≡ false
        → s.source ≡ frame ∷ rest
        → Move s (record s { source = rest; demux = got frame })
    read_end :
        s.demux ≡ reading
        → (halted s || s.broken) ≡ false
        → s.pause_flag ≡ false
        → s.source ≡ []
        → Move s (close_demux s)
    leave_head : s.demux ≡ reading → (halted s || s.broken) ≡ true → Move s (close_demux s)
    acquire :
        {frame : A} {slot : ℕ} {rest : List ℕ}
        → s.demux ≡ got frame
        → halted s ≡ false
        → s.free ≡ slot ∷ rest
        → Move s (fill frame slot rest s)
    leave_acquire : {frame : A} → s.demux ≡ got frame → halted s ≡ true → Move s (close_demux s)
    put :
        {req : SwapRequest} → s.demux ≡ filled req → length s.in_q < n_slots → Move s (submit req s)
    start_work :
        (before after : List SwapWorker) {req : SwapRequest} {rest : List SwapRequest}
        → s.workers ≡ before ++ idle ∷ after
        → s.in_q ≡ req ∷ rest
        → Move s (take_request before req after rest s)
    end_work :
        (before : List SwapWorker) (req : SwapRequest) (after : List SwapWorker)
        → s.workers ≡ before ++ busy req ∷ after
        → Move s (respond process before req after s)
    drain :
        {resp : SwapResponse} {rest : List SwapResponse}
        → s.draining ≡ true
        → s.out_q ≡ resp ∷ rest
        → Move s (collect resp rest s)
    drain_end :
        s.draining ≡ true
        → s.out_q ≡ []
        → s.demux ≡ closed
        → s.dispatched ≤ s.collected
        → Move s (record s { draining = false })
    pop :
        {entry : Entry}
        → s.writer ≡ polling
        → halted s ≡ false
        → lookup s.next_to_write s.done ≡ some entry
        → Move s (pop_done entry s)
    write : {entry : Entry} → s.writer ≡ writing entry → Move s (write_out entry s)
    all_written :
        s.writer ≡ polling
        → halted s ≡ false
        → lookup s.next_to_write s.done ≡ none
        → s.demux ≡ closed
        → s.dispatched ≤ s.next_to_write
        → Move s (record s { writer = complete })
    give_up : s.writer ≡ polling → halted s ≡ true → Move s (record s { writer = quit })

  -- What goes wrong outside the program.
  pub data Fault (s : Stream A) : Stream A → Type 0 where
    -- The drainer finds that a worker process has died.
    lost :
        (text : String)
        → s.draining ≡ true
        → s.out_q ≡ []
        → Fault s (record s { worker_error = s.worker_error ++ text ∷ []; draining = false })
    -- ffmpeg has gone away.
    break : {entry : Entry} → s.writer ≡ writing entry → Fault s (break_pipe entry s)

  -- What the user's requests do to the flags.
  pub data Signal (s : Stream A) : Stream A → Type 0 where
    stop : Signal s (record s { stop_flag = true; pause_flag = false })
    pause : (on : Bool) → Signal s (record s { pause_flag = on })

  -- An iteration of a waiting loop: it sleeps, or a call with a timeout gives up, and nothing has
  -- changed.
  pub data Idle (s : Stream A) : Type 0 where
    -- The demultiplexer while the job is paused.
    sleep : s.demux ≡ reading → (halted s || s.broken) ≡ false → s.pause_flag ≡ true → Idle s
    -- pool.acquire
    retry : {frame : A} → s.demux ≡ got frame → halted s ≡ false → s.free ≡ [] → Idle s
    -- The drainer's out_q.get, while answers are to come.
    await :
        s.draining ≡ true
        → s.out_q ≡ []
        → (s.demux ≢ closed) ⊎ (s.collected < s.dispatched)
        → Idle s
    -- The writer, while the next frame is not in `done`.
    poll :
        s.writer ≡ polling
        → halted s ≡ false
        → lookup s.next_to_write s.done ≡ none
        → (s.demux ≢ closed) ⊎ (s.next_to_write < s.dispatched)
        → Idle s

  -- The states a job with `n_workers` workers can come to on the frames of a video.
  pub data Reach (n_workers : ℕ) (slots : ℕ → A) (frames : List A) : Stream A → Type 0 where
    start : Reach n_workers slots frames (opening n_workers n_slots slots frames)
    moved :
        {s t : Stream A}
        → Reach n_workers slots frames s
        → Move s t
        → Reach n_workers slots frames t
    failed :
        {s t : Stream A}
        → Reach n_workers slots frames s
        → Fault s t
        → Reach n_workers slots frames t
    signalled :
        {s t : Stream A}
        → Reach n_workers slots frames s
        → Signal s t
        → Reach n_workers slots frames t
    idled :
        {s : Stream A} → Reach n_workers slots frames s → Idle s → Reach n_workers slots frames s
