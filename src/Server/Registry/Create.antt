-- ===== src/Server/Registry/Create.antt =====
-- Registry.create_job and create_batch, and the counters of a batch.
use face_swap_streamer_versi.Prelude.{
  ◌+◌, ◌≤◌, ◌≡◌, refl, ◌∙◌, ◌↔◌, List-cases, ◌⊎◌, inl, inr, Bool, false, List, [], ◌∷◌, none, some,
  String, string_eq, lookup, lookup-insert, any, length, Option-cases, arith, beq_refl,
}
use face_swap_streamer_versi.Floats.{Floats}
use face_swap_streamer_versi.Server.Job.{Job, BatchJob, FilePath, is_error}
use face_swap_streamer_versi.Server.Registry.{
  Registry, Upload, http_error, reply, cleanup, new_job, create_job, count_phases, batch_counts,
}

module _ {W E : Type 0} ⦃f : Floats W⦄ (fails : String → Bool) (up : Upload E)
    (r : Registry W E) where
  -- A job that is accepted is registered as queued, under its id, and the other jobs and the
  -- batches are those of the cleanup. A request with no source image changes nothing, and one with
  -- a source that shows no face registers nothing; both are answered by 400.
  pub create_job_registers :
      (id : String) (target : FilePath) (filename : String)
      → let (answer, after) = create_job fails up id target filename r in
        ((answer ≡ reply id)
          × (lookup id after.jobs ≡ some (new_job id (id ∷ []) target filename))
          × ((other : String)
              → (string_eq.beq id other ≡ false)
              → lookup other after.jobs ≡ lookup other (cleanup fails r).jobs)
          × (after.batches ≡ (cleanup fails r).batches))
        ⊎ ((answer ≡ http_error 400)
            × ((up.sources ≡ []) × (after ≡ r)
                ⊎ (up.detected ≡ none)
                  × (after.jobs ≡ (cleanup fails r).jobs)
                  × (after.batches ≡ (cleanup fails r).batches)))
  unfolding create_job
  create_job_registers id target filename = elim (List-cases up.sources) [
    | inl bare ↦ inr (rw (bare, create_job), inl (bare, rw (bare, create_job)))
    | inr (p, ps, some_source) ↦ elim (Option-cases up.detected) [
      | inl no_face ↦ inr (
        rw (some_source, no_face, create_job),
        inr (no_face, rw (some_source, no_face, create_job), rw (some_source, no_face, create_job)),
      )
      | inr (found, faces) ↦
          let job : Job W E = new_job id (id ∷ []) target filename in
          inl (
            rw (some_source, faces, create_job),
            rw (some_source, faces, create_job)
                (lookup-insert id id job (cleanup fails r).jobs ∙ rw (beq_refl id)),
            λ other ne.
                rw (some_source, faces, create_job)
                  (lookup-insert id other job (cleanup fails r).jobs ∙ rw ne),
            rw (some_source, faces, create_job),
          )
    ]
  ]

module _ {W E : Type 0} where
  count_phases-le : (js : List (Job W E)) → (count_phases js).0 + (count_phases js).1 ≤ length js
  unfolding count_phases
  count_phases-le [] = omega arith
  count_phases-le (j ∷ js) = ground (arith, count_phases-le js)

  -- The error counter is positive exactly when some child is in error.
  count_phases-error :
      (js : List (Job W E)) → (any (λ j. is_error j.phase) js ≡ false) ↔ ((count_phases js).1 ≡ 0)
  unfolding count_phases
  count_phases-error [] = (λ _. refl, λ _. refl)
  count_phases-error (j ∷ js) = (
    λ h. ground (arith, (count_phases-error js).0),
    λ h. ground (arith, (count_phases-error js).1),
  )

  -- In a batch's status the videos that are done and those in error are together at most all,
  -- and no video is counted in error exactly when none is.
  pub batch_counts_bounds :
      (b : BatchJob W E)
      → let c = batch_counts b in
        (c.total_videos ≡ length b.jobs)
        × (c.done_videos + c.error_videos ≤ c.total_videos)
        × ((any (λ j. is_error j.phase) b.jobs ≡ false) ↔ (c.error_videos ≡ 0))
  unfolding batch_counts
  batch_counts_bounds b = (refl, count_phases-le b.jobs, count_phases-error b.jobs)
