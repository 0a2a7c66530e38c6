-- ===== src/Routes/Samples.antt =====
-- A paused job, and two uploads beside it.
use face_swap_streamer_versi.Prelude.{
  ℕ, ◌≡◌, ◌<◌, ◌⊎◌, none, refl, true, false, [], ◌∷◌, some, lookup, string_eq,
}
use face_swap_streamer_versi.Routes.{
  WebJob, pause, resume, stop, run_controls, Workspace, member, begin_upload, queued_job, redirect,
  server_error, finish_upload,
}
use face_swap_streamer_versi.Routes.Controls.{steered, run_controls-steers}
use face_swap_streamer_versi.Routes.Uploads.{uploads_collide}

abbrev streaming : WebJob
streaming = record { phase = "streaming"; current_frame = 40; stop_flag = false; pause_flag = true }

abbrev workspace : Workspace
workspace = record {
  jobs = ("a1", streaming) ∷ ("b2", record streaming { phase = "done" }) ∷ [];
  entries = "a1" ∷ "b2" ∷ ".trt_cache" ∷ [];
}

run_controls-steers_example :
    (lookup "a1" (run_controls "a1" (resume ∷ stop ∷ pause ∷ []) workspace.jobs)
      ≡ some (steered (resume ∷ stop ∷ pause ∷ []) streaming))
    × (lookup "b2" (run_controls "a1" (resume ∷ stop ∷ pause ∷ []) workspace.jobs)
        ≡ lookup "b2" workspace.jobs)
run_controls-steers_example =
    run_controls-steers (resume ∷ stop ∷ pause ∷ []) "a1" "b2" workspace.jobs streaming refl refl
      refl

-- One file is left to be saved.
uploads_collide_example :
    let both =
      begin_upload (λ e. false) true "d4" (begin_upload (λ e. false) true "c3" workspace) in
    let (answer, after) = finish_upload 1 "c3" both in
    (member "c3" after.entries ≡ false)
    × ((◌≡◌ {A = ℕ} 1 0) × (answer ≡ redirect) × (lookup "c3" after.jobs ≡ some queued_job)
        ⊎ (0 < 1) × (answer ≡ server_error) × (lookup "c3" after.jobs ≡ none))
    × (lookup "a1" after.jobs ≡ some streaming)
    × (member "a1" after.entries ≡ true)
uploads_collide_example =
    uploads_collide (λ e. false) 1 "c3" "d4" "a1" workspace streaming refl refl refl refl refl refl
