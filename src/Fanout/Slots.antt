-- ===== src/Fanout/Slots.antt =====
-- The slots of the frame pool: each is in one place, and each frame in flight is in flight once.
use face_swap_streamer_versi.Prelude.{
  count_up, ℕ, zero, suc, ◌+◌, ◌≤◌, ◌<◌, ◌≡◌, refl, ap, true, List, [], ◌∷◌, hit, hit_self,
  hit_other, hit_cases, sum_of, length, replicate, arith, inl, inr,
}
use face_swap_streamer_versi.Fanout.{
  Swapped, SwapRequest, Entry, filled, writing, idle, Stream, opening,
}
use face_swap_streamer_versi.Fanout.Moves.{Move, Reach, start, moved, failed, signalled, idled}
use face_swap_streamer_versi.Fanout.Ledger.{
  flight, on_request, on_demux, on_writer, on_worker, carried, clean, Effect, same, took, gave,
  dropped, Move-Effect, Fault-Effect, Signal-Effect,
}

sum_of-count_up_out : (j k n : ℕ) → j < k → sum_of (hit j) (count_up k n) ≡ 0
sum_of-count_up_out j k zero lt = refl
sum_of-count_up_out j k (suc n) lt =
    omega (arith, hit_other j k (λ e. omega arith), sum_of-count_up_out j (suc k) n (omega arith))

sum_of-count_up : (j k n : ℕ) → sum_of (hit j) (count_up k n) ≤ 1
sum_of-count_up j k zero = omega arith
sum_of-count_up j k (suc n) = elim (hit_cases j k) [
  | inl (e, one) ↦ omega (arith, sum_of-count_up_out j (suc k) n (omega arith))
  | inr (_, none_here) ↦ omega (arith, sum_of-count_up j (suc k) n)
]

count_up-length : (k n : ℕ) → sum_of (λ slot. 1) (count_up k n) ≡ n
count_up-length k zero = refl
count_up-length k (suc n) = omega (arith, count_up-length (suc k) n)

idle_weightless : (w : ℕ → ℕ → ℕ) (n : ℕ) → sum_of (on_worker w) (replicate n idle) ≡ 0
idle_weightless w zero = refl
idle_weightless w (suc n) = omega (arith, idle_weightless w n)

module _ {A : Type 0} where
  -- In how many places a slot is: the free ones, a queue, a worker, `done` or a thread's hands.
  abbrev pub held : ℕ → Stream A → ℕ
  held j s = sum_of (hit j) s.free + flight (λ k slot. hit j slot) s

  -- How many slots the pool and the frames in flight make up.
  abbrev pub all_held : Stream A → ℕ
  all_held s = sum_of (λ slot. 1) s.free + flight (λ k slot. 1) s

  pub record Accounts (n_slots : ℕ) (s : Stream A) : Type 0 where
    pub ordered : s.next_to_write ≤ s.dispatched
    pub carried_once : (j : ℕ) → carried j s ≤ 1
    pub carried_old : (j : ℕ) → j < s.next_to_write → carried j s ≡ 0
    pub carried_new : (j : ℕ) → s.dispatched ≤ j → carried j s ≡ 0
    pub carried_all :
        clean s ≡ true → (j : ℕ) → s.next_to_write ≤ j → j < s.dispatched → carried j s ≡ 1
    pub held_once : (j : ℕ) → held j s ≤ 1
    pub held_most : all_held s ≤ n_slots
    pub held_all : clean s ≡ true → all_held s ≡ n_slots

  module _ {n_slots : ℕ} {s t : Stream A} (inv : Accounts n_slots s)
      (step : (w : ℕ → ℕ → ℕ) (v : ℕ → ℕ) → Effect w v s t) where
    open inv use {
      ordered, carried_once, carried_old, carried_new, carried_all, held_once, held_most, held_all,
    }

    kept_ordered : t.next_to_write ≤ t.dispatched
    kept_ordered = elim (step (λ k slot. hit s.next_to_write k) (λ _. 0)) [
      | same _ _ d n _ ↦ omega arith
      | took _ _ _ d n _ ↦ omega arith
      | dropped _ _ _ _ d n _ ↦ omega arith
      | gave slot _ f d (inl n) _ ↦
          grind (arith, hit_self s.next_to_write, carried_new s.next_to_write)
      | gave slot _ f d (inr (n, _)) _ ↦ omega arith
    ]

    kept_once : (j : ℕ) → carried j t ≤ 1
    kept_once j = elim (step (λ k slot. hit j k) (λ _. 0)) [
      | same _ f d n _ ↦ omega (arith, carried_once j)
      | took slot _ f d n _ ↦ elim (hit_cases j s.dispatched) [
        | inl (e, one) ↦ omega (arith, carried_new j (omega arith))
        | inr (_, zero_here) ↦ omega (arith, carried_once j)
      ]
      | dropped _ _ _ f d n _ ↦ omega (arith, carried_once j)
      | gave slot _ f d _ _ ↦ omega (arith, carried_once j)
    ]

    kept_old : (j : ℕ) → j < t.next_to_write → carried j t ≡ 0
    kept_old j lt = elim (step (λ k slot. hit j k) (λ _. 0)) [
      | same _ f d n _ ↦ omega (arith, carried_old j (omega arith))
      | took slot _ f d n _ ↦ omega (
        arith,
        carried_old j (omega arith),
        hit_other j s.dispatched (λ e. omega (arith, ordered)),
      )
      | dropped _ _ _ f d n _ ↦ omega (arith, carried_old j (omega arith))
      | gave slot _ f d (inl n) _ ↦ elim (hit_cases j s.next_to_write) [
        | inl (e, one) ↦ omega (arith, carried_once j)
        | inr (ne, _) ↦ omega (arith, carried_old j (ground arith))
      ]
      | gave slot _ f d (inr (n, _)) _ ↦ omega (arith, carried_old j (omega arith))
    ]

    kept_new : (j : ℕ) → t.dispatched ≤ j → carried j t ≡ 0
    kept_new j le = elim (step (λ k slot. hit j k) (λ _. 0)) [
      | same _ f d n _ ↦ omega (arith, carried_new j (omega arith))
      | took slot _ f d n _ ↦
          omega (arith, carried_new j (omega arith), hit_other j s.dispatched (λ e. omega arith))
      | dropped _ _ _ f d n _ ↦ omega (arith, carried_new j (omega arith))
      | gave slot _ f d _ _ ↦ omega (arith, carried_new j (omega arith))
    ]

    kept_all : clean t ≡ true → (j : ℕ) → t.next_to_write ≤ j → j < t.dispatched → carried j t ≡ 1
    kept_all ok j lo hi = elim (step (λ k slot. hit j k) (λ _. 0)) [
      | same _ f d n c ↦ omega (arith, carried_all (c ok) j (omega arith) (omega arith))
      | took slot _ f d n c ↦ elim (hit_cases j s.dispatched) [
        | inl (e, one) ↦ omega (arith, carried_new j (omega arith))
        | inr (ne, z) ↦ omega (arith, carried_all (c ok) j (omega arith) (ground arith))
      ]
      | dropped _ _ _ f d n c ↦ absurd (ground (arith, ok, c))
      | gave slot _ f d (inl n) c ↦ omega (
        arith,
        carried_all (c ok) j (omega arith) (omega arith),
        hit_other j s.next_to_write (λ e. omega arith),
      )
      | gave slot _ f d (inr (_, bad)) c ↦ absurd (ground (arith, ok, bad))
    ]

    kept_held : (j : ℕ) → held j t ≤ 1
    kept_held j = elim (step (λ k slot. hit j slot) (hit j)) [
      | same u f d n _ ↦ omega (arith, held_once j)
      | took slot u f d n _ ↦ omega (arith, held_once j)
      | dropped _ _ u f d n _ ↦ omega (arith, held_once j)
      | gave slot u f d _ _ ↦ omega (arith, held_once j)
    ]

    kept_held_most : all_held t ≤ n_slots
    kept_held_most = elim (step (λ k slot. 1) (λ slot. 1)) [
      | same u f d n c ↦ omega (arith, held_most)
      | took slot u f d n c ↦ omega (arith, held_most)
      | dropped _ _ u f d n c ↦ omega (arith, held_most)
      | gave slot u f d _ c ↦ omega (arith, held_most)
    ]

    kept_held_all : clean t ≡ true → all_held t ≡ n_slots
    kept_held_all ok = elim (step (λ k slot. 1) (λ slot. 1)) [
      | same u f d n c ↦ omega (arith, held_all (c ok))
      | took slot u f d n c ↦ omega (arith, held_all (c ok))
      | dropped _ _ u f d n c ↦ absurd (ground (arith, ok, c))
      | gave slot u f d _ c ↦ omega (arith, held_all (c ok))
    ]

    kept-Accounts : Accounts n_slots t
    kept-Accounts = record {
      ordered = kept_ordered;
      carried_once = kept_once;
      carried_old = kept_old;
      carried_new = kept_new;
      carried_all = kept_all;
      held_once = kept_held;
      held_most = kept_held_most;
      held_all = kept_held_all;
    }

  module _ (n_slots : ℕ) (process : A → Swapped A) where
    opening-Accounts :
        (n_workers : ℕ) (slots : ℕ → A) (frames : List A)
        → Accounts n_slots (opening n_workers n_slots slots frames)
    unfolding opening
    opening-Accounts n_workers slots frames = record {
      ordered = omega arith;
      carried_once = λ j. omega (arith, idle_weightless (λ k slot. hit j k) n_workers);
      carried_old = λ j _. omega (arith, idle_weightless (λ k slot. hit j k) n_workers);
      carried_new = λ j _. omega (arith, idle_weightless (λ k slot. hit j k) n_workers);
      carried_all = λ _ j lo hi. absurd (omega arith);
      held_once = λ j.
          omega
            (arith, idle_weightless (λ k slot. hit j slot) n_workers, sum_of-count_up j 0 n_slots);
      held_most = omega (arith, idle_weightless (λ k slot. 1) n_workers, count_up-length 0 n_slots);
      held_all =
          λ _. omega (arith, idle_weightless (λ k slot. 1) n_workers, count_up-length 0 n_slots);
    }

    Move-Accounts :
        {s t : Stream A} → Accounts n_slots s → Move n_slots process s t → Accounts n_slots t
    Move-Accounts inv mv =
        kept-Accounts inv (λ w v. Move-Effect n_slots process w v inv.carried_once mv)

    -- Every state that a job comes to keeps the books.
    pub Reach-Accounts :
        {n_workers : ℕ} {slots : ℕ → A} {frames : List A} {s : Stream A}
        → Reach n_slots process n_workers slots frames s
        → Accounts n_slots s
    Reach-Accounts {n_workers} {slots} {frames} start = opening-Accounts n_workers slots frames
    Reach-Accounts (moved r mv) = Move-Accounts (Reach-Accounts r) mv
    Reach-Accounts (failed r f) =
        kept-Accounts (Reach-Accounts r) (λ w v. Fault-Effect n_slots process w v f)
    Reach-Accounts (signalled r sg) =
        kept-Accounts (Reach-Accounts r) (λ w v. Signal-Effect n_slots process w v sg)
    Reach-Accounts (idled r _) = Reach-Accounts r

    -- At any time a slot of shared memory is in at most one place: the free ones, a queue, a
    -- worker, `done` or the hands of a thread. While there was no worker error and the pipe to
    -- ffmpeg is whole, none is lost: the places hold `n_slots` slots.
    pub slots_conserved :
        {n_workers : ℕ} {slots : ℕ → A} {frames : List A} {s : Stream A}
        → Reach n_slots process n_workers slots frames s
        → ((j : ℕ) → held j s ≤ 1) × (clean s ≡ true → all_held s ≡ n_slots)
    slots_conserved r = let a = Reach-Accounts r in (a.held_once, a.held_all)

    count_length : (xs : List ℕ) → sum_of (λ slot. 1) xs ≡ length xs
    count_length [] = refl
    count_length (x ∷ xs) = omega (arith, count_length xs)

    queue_length : (xs : List SwapRequest) → sum_of (on_request (λ _ _. 1)) xs ≡ length xs
    queue_length [] = refl
    queue_length (x ∷ xs) = omega (arith, queue_length xs)

    -- Neither bounded queue is ever full: the demultiplexer's in_q.put never waits, and the
    -- writer's release never raises queue.Full.
    pub never_full :
        {n_workers : ℕ} {slots : ℕ → A} {frames : List A} {s : Stream A}
        → Reach n_slots process n_workers slots frames s
        → ((req : SwapRequest) → s.demux ≡ filled req → length s.in_q < n_slots)
          × ((entry : Entry) → s.writer ≡ writing entry → length s.free < n_slots)
    never_full {s} r =
        let a = Reach-Accounts r in
        (
          λ req e. omega (arith, a.held_most, ap (on_demux (λ _ _. 1)) e, queue_length s.in_q),
          λ entry e. omega (
            arith,
            a.held_most,
            ap (on_writer (λ _ _. 1) s.next_to_write) e,
            count_length s.free,
          ),
        )
