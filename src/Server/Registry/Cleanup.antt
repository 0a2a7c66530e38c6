-- ===== src/Server/Registry/Cleanup.antt =====
-- Registry.cleanup: what survives `_cleanup_finished_workspace`.
use face_swap_streamer_versi.Prelude.{
  ◌≡◌, refl, ap, ◌∙◌, Bool, true, false, not, ◌||◌, ◌&&◌, if◌then◌else◌, List, [], ◌∷◌, ◌++◌, map,
  Option, none, some, String, string_eq, Dict, lookup, erase, lookup-erase, select, Bool-cases,
  Option-cases, arith, beq_refl, inl, inr,
}
use face_swap_streamer_versi.Server.Job.{Job, JobPhase}
use face_swap_streamer_versi.Server.Registry.{
  Registry, basename, keys, member, sweep, job_closed, batch_closed, job_names, batch_names,
  kept_names, cleanup,
}

module _ {ℓ} {V : Type ℓ} where
  -- The entry without what is over.
  abbrev pub if_open : (V → Bool) → Option V → Option V
  if_open over none = none
  if_open over (some v) = if over v then none else some v

  sweep_one :
      (over : V → Bool) (k j : String) (d : Dict String V)
      → lookup j (elim (lookup k d) [ none ↦ d | some v ↦ if over v then erase k d else d ])
        ≡ (if string_eq.beq k j then if_open over (lookup j d) else lookup j d)
  sweep_one over k j d = elim (Bool-cases (string_eq.beq k j)) [
    | inl same ↦
        let e : k ≡ j = (string_eq.beq_iff k j).0 same in
        elim (Option-cases (lookup k d)) [
          | inl absent ↦ ground (arith, same, absent, e)
          | inr (v, here) ↦ ground (arith, same, here, e, lookup-erase k j d)
        ]
    | inr other ↦ ground (arith, other, lookup-erase k j d)
  ]

  sweep-lookup :
      (over : V → Bool) (ks : List String) (j : String) (d : Dict String V)
      → lookup j (sweep over ks d) ≡ (if member j ks then if_open over (lookup j d) else lookup j d)
  unfolding sweep
  sweep-lookup over [] j d = refl
  sweep-lookup over (k ∷ ks) j d = ground (
    arith,
    sweep-lookup over ks j
        (elim (lookup k d) [ none ↦ d | some v ↦ if over v then erase k d else d ]),
    sweep_one over k j d,
  )

  member-keys : (j : String) (d : Dict String V) → member j (keys d) ≡ false → lookup j d ≡ none
  member-keys j [] h = refl
  member-keys j ((k, v) ∷ d) h = ground (arith, member-keys j d)

  sweep_all :
      (over : V → Bool) (j : String) (d : Dict String V)
      → lookup j (sweep over (keys d) d) ≡ if_open over (lookup j d)
  sweep_all over j d = elim (Bool-cases (member j (keys d))) [
    | inl here ↦ sweep-lookup over (keys d) j d ∙ rw here
    | inr out ↦ sweep-lookup over (keys d) j d ∙ ground (arith, out, member-keys j d out)
  ]

  -- The name of an entry that passes the test is among the names.
  member-names :
      (name : V → String) (p : V → Bool) (k : String) (v : V) (d : Dict String V)
      → lookup k d ≡ some v
      → p v ≡ true
      → member (name v) (map (λ kv. name kv.1) (select (λ kv. p kv.1) d)) ≡ true
  member-names name p k v [] h good = cc
  member-names name p k v ((j, w) ∷ d) h good = elim (Bool-cases (string_eq.beq j k)) [
    | inl same ↦ let e : w ≡ v = ground (arith, same) in ground (arith, e, beq_refl (name v))
    | inr other ↦
        let rest = member-names name p k v d (ground (arith, other)) good in ground (arith, rest)
  ]

member-append :
    (s : String) (xs ys : List String) → member s (xs ++ ys) ≡ (member s xs || member s ys)
member-append s [] ys = refl
member-append s (x ∷ xs) ys = ground (arith, member-append s xs ys)

member-select :
    (s : String) (p : String → Bool) (xs : List String)
    → member s (select p xs) ≡ (p s && member s xs)
member-select s p [] = ground arith
member-select s p (x ∷ xs) = elim (Bool-cases (string_eq.beq x s)) [
  | inl same ↦
      let e : x ≡ s = (string_eq.beq_iff x s).0 same in
      ground (arith, same, ap p e, member-select s p xs)
  | inr other ↦ ground (arith, other, member-select s p xs)
]

module _ {W E : Type 0} (fails : String → Bool) (r : Registry W E) where
  -- After a cleanup a job or a batch is registered exactly if it was and is not over, and then
  -- unchanged. A name in the workspace stays exactly if it was there, and is the directory name of
  -- a registered job or batch that is not over, or could not be removed.
  pub cleanup_keeps :
      (name : String)
      → (lookup name (cleanup fails r).jobs ≡ if_open job_closed (lookup name r.jobs))
        × (lookup name (cleanup fails r).batches ≡ if_open batch_closed (lookup name r.batches))
        × (member name (cleanup fails r).entries
            ≡ ((member name (kept_names r) || fails name) && member name r.entries))
  unfolding cleanup
  cleanup_keeps name = (
    sweep_all job_closed name r.jobs,
    sweep_all batch_closed name r.batches,
    member-select name (λ e. member e (kept_names r) || fails e) r.entries,
  )

  -- The directory of a registered job that is neither done nor in error is never removed, if it
  -- stands in the workspace under its own name.
  pub cleanup_spares :
      (id : String) (j : Job W E)
      → lookup id r.jobs ≡ some j
      → job_closed j ≡ false
      → member (basename j.job_dir) r.entries ≡ true
      → (lookup id (cleanup fails r).jobs ≡ some j)
        × (member (basename j.job_dir) (cleanup fails r).entries ≡ true)
  unfolding kept_names
  cleanup_spares id j here open_ there =
      let name = basename j.job_dir in
      let kept =
        member-names (λ (k : Job W E). basename k.job_dir) (λ k. not (job_closed k)) id j r.jobs
          here (ground (arith, open_)) in
      let stays : member name (kept_names r) ≡ true =
        member-append name (job_names r) (batch_names r) ∙ ground (arith, kept) in
      (
        (cleanup_keeps id).0 ∙ rw here (ground (arith, open_)),
        (cleanup_keeps name).2 ∙ ground (arith, stays, there),
      )

  -- A job that still waits when its batch is over stays registered, while the directory of the
  -- batch, in which its files stand, is removed: if no other open job or batch keeps that name
  -- and the removal works.
  pub cleanup_strands :
      (id batch_id : String) (j : Job W E)
      → lookup id r.jobs ≡ some j
      → j.phase ≡ JobPhase.queued
      → member batch_id (kept_names r) ≡ false
      → fails batch_id ≡ false
      → (lookup id (cleanup fails r).jobs ≡ some j)
        × (member batch_id (cleanup fails r).entries ≡ false)
  cleanup_strands id batch_id j here waits gone works =
      ((cleanup_keeps id).0 ∙ rw here (rw waits), (cleanup_keeps batch_id).2 ∙ rw (gone, works))
