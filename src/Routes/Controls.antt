-- ===== src/Routes/Controls.antt =====
-- The flags of a job after any requests to pause, resume and stop it.
use face_swap_streamer_versi.Prelude.{
  ◌≡◌, refl, ap, ◌∙◌, Bool, true, false, ◌||◌, List, [], ◌∷◌, some, String, string_eq, beq_refl,
  Dict, lookup, insert, lookup-insert, any, arith, inl, inr, Bool-cases, Option-cases,
}
use face_swap_streamer_versi.Routes.{
  WebJob, terminal, Control, pause, resume, stop, control, control_job, run_controls,
}

abbrev pub is_stop : Control → Bool
is_stop stop = true
is_stop _ = false

abbrev pub is_pause : Control → Bool
is_pause pause = true
is_pause _ = false

-- The pause flag after some requests: what the last one says.
abbrev pub paused_by : Bool → List Control → Bool
paused_by before [] = before
paused_by before (r ∷ rs) = paused_by (is_pause r) rs

control-terminal : (r : Control) (j : WebJob) → terminal (control r j) ≡ terminal j
control-terminal pause j = refl
control-terminal resume j = refl
control-terminal stop j = refl

accepted :
    (r : Control) (id : String) (jobs : Dict String WebJob) (j : WebJob)
    → lookup id jobs ≡ some j
    → terminal j ≡ false
    → (control_job r id jobs).1 ≡ insert id (control r j) jobs
unfolding control_job
accepted r id jobs j found running = rw (found, running, control_job) refl

-- What the requests make of the job.
abbrev pub steered : List Control → WebJob → WebJob
steered rs j = record j {
  stop_flag = j.stop_flag || any is_stop rs;
  pause_flag = paused_by j.pause_flag rs;
}

steered-control :
    (r : Control) (rs : List Control) (j : WebJob) → steered rs (control r j) ≡ steered (r ∷ rs) j
steered-control pause rs j = refl
steered-control resume rs j = refl
steered-control stop rs j = ground arith

steers :
    (rs : List Control) (id : String) (jobs : Dict String WebJob) (j : WebJob)
    → lookup id jobs ≡ some j
    → terminal j ≡ false
    → lookup id (run_controls id rs jobs) ≡ some (steered rs j)
unfolding run_controls
steers [] id jobs j found running = found ∙ ground arith
steers (r ∷ rs) id jobs j found running =
    ap (λ d. lookup id (run_controls id rs d)) (accepted r id jobs j found running)
    ∙ steers rs id (insert id (control r j) jobs) (control r j)
        (lookup-insert id id (control r j) jobs ∙ rw (beq_refl id) refl)
        (control-terminal r j ∙ running)
    ∙ ap some (steered-control r rs j)

untouched :
    (r : Control) (id k : String) (jobs : Dict String WebJob)
    → string_eq.beq id k ≡ false
    → lookup k (control_job r id jobs).1 ≡ lookup k jobs
unfolding control_job
untouched r id k jobs other = elim (Option-cases (lookup id jobs)) [
  | inl e ↦ rw (e, control_job) refl
  | inr (j, e) ↦ elim (Bool-cases (terminal j)) [
    | inl over ↦ rw (e, over, control_job) refl
    | inr running ↦
        ap (lookup k) (accepted r id jobs j e running)
        ∙ lookup-insert id k (control r j) jobs
        ∙ rw other refl
  ]
]

all_untouched :
    (rs : List Control) (id k : String) (jobs : Dict String WebJob)
    → string_eq.beq id k ≡ false
    → lookup k (run_controls id rs jobs) ≡ lookup k jobs
unfolding run_controls
all_untouched [] id k jobs other = refl
all_untouched (r ∷ rs) id k jobs other =
    all_untouched rs id k (control_job r id jobs).1 other ∙ untouched r id k jobs other

-- After any requests to pause, resume and stop a registered job that is neither done nor in
-- error, the job is told to stop if it was before or some request was a stop, and it is paused as
-- the last request says: so a stop ends a pause and is never taken back. Its phase and its frame
-- are as before, and so is every other job.
pub run_controls-steers :
    (rs : List Control) (id k : String) (jobs : Dict String WebJob) (j : WebJob)
    → lookup id jobs ≡ some j
    → terminal j ≡ false
    → string_eq.beq id k ≡ false
    → (lookup id (run_controls id rs jobs) ≡ some (steered rs j))
      × (lookup k (run_controls id rs jobs) ≡ lookup k jobs)
run_controls-steers rs id k jobs j found running other =
    (steers rs id jobs j found running, all_untouched rs id k jobs other)
