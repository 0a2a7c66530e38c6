-- ===== src/Routes/Uploads.antt =====
-- What the clean-up at the beginning of an upload leaves of the others.
use face_swap_streamer_versi.Prelude.{
  ℕ, zero, suc, ◌<◌, ◌⊎◌, ◌≡◌, refl, ap, ◌∙◌, inl, inr, Bool, true, false, ◌||◌, if◌then◌else◌,
  List, [], ◌∷◌, ◌++◌, none, some, String, string_eq, beq_refl, Dict, lookup, lookup-insert, select,
  Bool-cases, arith,
}
use face_swap_streamer_versi.Routes.{
  WebJob, terminal, member, Workspace, forget_terminal, active_ids, begin_upload, queued_job,
  redirect, server_error, finish_upload,
}

-- A name that is not registered is in no active job.
inactive :
    (id : String) (jobs : Dict String WebJob)
    → lookup id jobs ≡ none
    → member id (active_ids jobs) ≡ false
unfolding forget_terminal
inactive id [] h = refl
inactive id ((k, j) ∷ jobs) h = elim (Bool-cases (string_eq.beq k id)) [
  | inl e ↦ absurd (ground (arith, e, h))
  | inr e ↦ elim (Bool-cases (terminal j)) [
    | inl over ↦ rw over (inactive id jobs (ground (arith, e, h)))
    | inr running ↦ rw (running, e) (inactive id jobs (ground (arith, e, h)))
  ]
]

active :
    (id : String) (jobs : Dict String WebJob) (j : WebJob)
    → lookup id jobs ≡ some j
    → terminal j ≡ false
    → (lookup id (forget_terminal jobs) ≡ some j) × (member id (active_ids jobs) ≡ true)
unfolding forget_terminal
active id [] j found running = absurd (cc)
active id ((k, i) ∷ jobs) j found running = elim (Bool-cases (string_eq.beq k id)) [
  | inl e ↦
      let same : i ≡ j = ground (arith, e, found) in
      let still : terminal i ≡ false = ap terminal same ∙ running in
      rw still (rw e (ap some same), rw e refl)
  | inr e ↦
      let (kept, in_there) = active id jobs j (ground (arith, e, found)) running in
      elim (Bool-cases (terminal i)) [
        | inl over ↦ rw over (kept, in_there)
        | inr still ↦ rw still (rw e kept, rw e in_there)
      ]
]

still_absent :
    (id : String) (jobs : Dict String WebJob)
    → lookup id jobs ≡ none
    → lookup id (forget_terminal jobs) ≡ none
unfolding forget_terminal
still_absent id [] h = refl
still_absent id ((k, j) ∷ jobs) h = elim (Bool-cases (string_eq.beq k id)) [
  | inl e ↦ absurd (ground (arith, e, h))
  | inr e ↦ elim (Bool-cases (terminal j)) [
    | inl over ↦ rw over (still_absent id jobs (ground (arith, e, h)))
    | inr running ↦ rw running (rw e (still_absent id jobs (ground (arith, e, h))))
  ]
]

member-select :
    (p : String → Bool) (s : String) (es : List String)
    → member s (select p es) ≡ (if p s then member s es else false)
member-select p s [] = ground arith
member-select p s (e ∷ es) = elim (Bool-cases (string_eq.beq e s)) [
  | inl q ↦
      let same : p e ≡ p s = ap p ((string_eq.beq_iff e s).0 q) in
      ground (arith, q, same, member-select p s es)
  | inr q ↦ ground (arith, q, member-select p s es)
]

member-snoc :
    (s e : String) (es : List String) → member s (es ++ e ∷ []) ≡ (member s es || string_eq.beq e s)
member-snoc s e [] = ground arith
member-snoc s e (x ∷ xs) = ground (arith, member-snoc s e xs)

-- What is left of an upload whose directory is gone.
after_loss :
    (left : ℕ) (id k : String) (w : Workspace) (j : WebJob)
    → member id w.entries ≡ false
    → lookup id w.jobs ≡ none
    → lookup k w.jobs ≡ some j
    → member k w.entries ≡ true
    → let (answer, after) = finish_upload left id w in
      (member id after.entries ≡ false)
      × ((left ≡ 0) × (answer ≡ redirect) × (lookup id after.jobs ≡ some queued_job)
          ⊎ (0 < left) × (answer ≡ server_error) × (lookup id after.jobs ≡ none))
      × (lookup k after.jobs ≡ some j)
      × (member k after.entries ≡ true)
unfolding finish_upload
after_loss zero id k w j lost absent found there = (
  lost,
  inl (refl, refl, lookup-insert id id queued_job w.jobs ∙ rw (beq_refl id) refl),
  lookup-insert id k queued_job w.jobs ∙ elim (Bool-cases (string_eq.beq id k)) [
    | inl e ↦ let same : id ≡ k = (string_eq.beq_iff id k).0 e in absurd (cc (same, lost, there))
    | inr e ↦ rw e found
  ],
  there,
)
after_loss (suc left) id k w j lost absent found there =
    rw lost (lost, inr (omega arith, refl, absent), found, there)

module _ (fails : String → Bool) where
  abbrev keeps : Workspace → String → Bool
  keeps w e = member e (active_ids w.jobs) || fails e

  -- A name other than that of the upload is there afterwards if it was kept.
  begin_upload-member :
      (id s : String) (w : Workspace)
      → string_eq.beq id s ≡ false
      → member s (begin_upload fails true id w).entries
        ≡ (if keeps w s then member s w.entries else false)
  unfolding begin_upload
  begin_upload-member id s w other =
      elim (Bool-cases
        (member id (select (λ e. member e (active_ids w.jobs) || fails e) w.entries))) [
          | inl there ↦ rw there (member-select (keeps w) s w.entries)
          | inr new ↦ rw new (
              member-snoc s id (select (λ e. member e (active_ids w.jobs) || fails e) w.entries)
              ∙ ground (arith, other, member-select (keeps w) s w.entries))
        ]

  begin_upload-spares :
      (id s : String) (w : Workspace) (j : WebJob)
      → lookup s w.jobs ≡ some j
      → terminal j ≡ false
      → member s w.entries ≡ true
      → (lookup s (begin_upload fails true id w).jobs ≡ some j)
        × (member s (begin_upload fails true id w).entries ≡ true)
  unfolding begin_upload
  begin_upload-spares id s w j found running there =
      let (kept, on) = active s w.jobs j found running in
      let stays : member s (select (keeps w) w.entries) ≡ true =
        member-select (keeps w) s w.entries ∙ ground (arith, on, there) in
      (
        kept,
        elim (Bool-cases (member id (select (keeps w) w.entries))) [
          | inl old ↦ rw old stays
          | inr new ↦ rw new (member-snoc s id (select (keeps w) w.entries) ∙ ground (arith, stays))
        ],
      )

  begin_upload-jobs :
      (id : String) (w : Workspace) → (begin_upload fails true id w).jobs ≡ forget_terminal w.jobs
  unfolding begin_upload
  begin_upload-jobs id w = refl

  -- Two uploads at a time: while the first one, whose id is new, is still storing its files, the
  -- clean-up of the second removes its directory, unless the removal fails. If the first then has
  -- a file left to save, it raises and its job is not registered; if it has saved them all, the
  -- job is registered without its files. The directory of a job that is registered, and neither
  -- done nor in error, is spared by both, and the job stays registered.
  pub uploads_collide :
      (left : ℕ) (id id' k : String) (w : Workspace) (j : WebJob)
      → lookup id w.jobs ≡ none
      → string_eq.beq id' id ≡ false
      → fails id ≡ false
      → lookup k w.jobs ≡ some j
      → terminal j ≡ false
      → member k w.entries ≡ true
      → let both = begin_upload fails true id' (begin_upload fails true id w) in
        let (answer, after) = finish_upload left id both in
        (member id after.entries ≡ false)
        × ((left ≡ 0) × (answer ≡ redirect) × (lookup id after.jobs ≡ some queued_job)
            ⊎ (0 < left) × (answer ≡ server_error) × (lookup id after.jobs ≡ none))
        × (lookup k after.jobs ≡ some j)
        × (member k after.entries ≡ true)
  uploads_collide left id id' k w j new other removable found running there =
      let once = begin_upload fails true id w in
      let both = begin_upload fails true id' once in
      let absent : lookup id once.jobs ≡ none =
        ap (lookup id) (begin_upload-jobs id w) ∙ still_absent id w.jobs new in
      let absent' : lookup id both.jobs ≡ none =
        ap (lookup id) (begin_upload-jobs id' once) ∙ still_absent id once.jobs absent in
      let gone : keeps once id ≡ false = ground (arith, inactive id once.jobs absent, removable) in
      let (found', there') = begin_upload-spares id k w j found running there in
      let (found'', there'') = begin_upload-spares id' k once j found' running there' in
      let lost = begin_upload-member id' id once other ∙ ground (arith, gone) in
      after_loss left id k both j lost absent' found'' there''
