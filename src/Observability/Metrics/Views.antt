-- ===== src/Observability/Metrics/Views.antt =====
-- What the metrics hold after any calls.
use face_swap_streamer_versi.Prelude.{
  ℕ, zero, suc, ◌+◌, ◌-◌, ◌^◌, ◌≤◌, ◌≡◌, ◌⊎◌, refl, ap, sym, ◌∙◌, ltb, if◌then◌else◌, List, [], ◌∷◌,
  ◌++◌, Dict, Option, none, some, String, string_eq, lookup, insert, get_or, lookup-insert, length,
  length-append, take, arith, Bool-cases, inl, inr, List-cases, Ends, Ends-mono,
}
use mathlib.Core.List.{append_assoc, append-nil}
use face_swap_streamer_versi.Floats.{Floats, nought}
use face_swap_streamer_versi.Observability.Metrics.{
  Histogram, MetricsRegistry, Event, inc, set_gauge, observe, fresh, take_in, counter, gauge,
  histogram, target, apply, replay, empty_registry,
}

take-nil : {A : Type 0} (n : ℕ) → take {A = A} n [] ≡ []
take-nil zero = refl
take-nil (suc n) = refl

insert-get :
    {V : Type 0} (m n : String) (v other : V) (d : Dict String V)
    → get_or n other (insert m v d) ≡ (if string_eq.beq m n then v else get_or n other d)
insert-get m n v other d = ground (arith, lookup-insert m n v d)

-- What a call does to a value under a name that it writes to, `m`, seen at the name `n`.
at_name :
    {V : Type 0} (m n : String) (g : V → V) (other : V) (d : Dict String V)
    → get_or n other (insert m (g (get_or m other d)) d)
      ≡ (if string_eq.beq m n then g (get_or n other d) else get_or n other d)
at_name m n g other d = elim (Bool-cases (string_eq.beq m n)) [
  | inl same ↦
      let e : m ≡ n = (string_eq.beq_iff m n).0 same in
      insert-get m n (g (get_or m other d)) other d ∙ rw (same, e) refl
  | inr differs ↦ insert-get m n (g (get_or m other d)) other d ∙ rw differs refl
]

module _ {W : Type 0} ⦃f : Floats W⦄ where
  -- The amounts, the values and the samples that a list of calls gives to one name.
  abbrev pub amounts : String → List (Event W) → List W
  amounts n [] = []
  amounts n (inc m a ∷ es) = if string_eq.beq m n then a ∷ amounts n es else amounts n es
  amounts n (set_gauge m a ∷ es) = amounts n es
  amounts n (observe m a ∷ es) = amounts n es

  abbrev pub settings : String → List (Event W) → List W
  settings n [] = []
  settings n (inc m a ∷ es) = settings n es
  settings n (set_gauge m a ∷ es) = if string_eq.beq m n then a ∷ settings n es else settings n es
  settings n (observe m a ∷ es) = settings n es

  abbrev pub readings : String → List (Event W) → List W
  readings n [] = []
  readings n (inc m a ∷ es) = readings n es
  readings n (set_gauge m a ∷ es) = readings n es
  readings n (observe m a ∷ es) = if string_eq.beq m n then a ∷ readings n es else readings n es

  abbrev pub sum_from : W → List W → W
  sum_from x [] = x
  sum_from x (a ∷ rest) = sum_from (f.add x a) rest

  abbrev pub last_of : W → List W → W
  last_of x [] = x
  last_of x (a ∷ rest) = last_of a rest

  -- The histogram of one name alone; the first reading makes it.
  abbrev series : W → W → String → Option (Histogram W) → List W → Option (Histogram W)
  series top bottom n o [] = o
  series top bottom n none (v ∷ vs) = series top bottom n (some (take_in v (fresh top bottom n))) vs
  series top bottom n (some h) (v ∷ vs) = series top bottom n (some (take_in v h)) vs

  pub replay-nil : (top bottom : W) (r : MetricsRegistry W) → replay top bottom [] r ≡ r
  unfolding replay
  replay-nil top bottom r = refl

  pub replay-snoc :
      (top bottom : W) (e : Event W) (es : List (Event W)) (r : MetricsRegistry W)
      → replay top bottom (es ++ e ∷ []) r ≡ apply top bottom e (replay top bottom es r)
  unfolding replay
  replay-snoc top bottom e [] r = refl
  replay-snoc top bottom e (d ∷ es) r = replay-snoc top bottom e es (apply top bottom d r)

  pub replay-append :
      (top bottom : W) (es ds : List (Event W)) (r : MetricsRegistry W)
      → replay top bottom (es ++ ds) r ≡ replay top bottom ds (replay top bottom es r)
  unfolding replay
  replay-append top bottom [] ds r = refl
  replay-append top bottom (e ∷ es) ds r = replay-append top bottom es ds (apply top bottom e r)

  replay-counter :
      (top bottom : W) (n : String) (es : List (Event W)) (r : MetricsRegistry W)
      → counter n (replay top bottom es r) ≡ sum_from (counter n r) (amounts n es)
  unfolding counter replay apply
  replay-counter top bottom n [] r = refl
  replay-counter top bottom n (inc m a ∷ es) r =
      replay-counter top bottom n es (apply top bottom (inc m a) r)
      ∙ ground (arith, at_name m n (λ x. f.add x a) nought r.counters)
  replay-counter top bottom n (set_gauge m a ∷ es) r =
      replay-counter top bottom n es (apply top bottom (set_gauge m a) r)
  replay-counter top bottom n (observe m a ∷ es) r =
      replay-counter top bottom n es (apply top bottom (observe m a) r)

  replay-gauge :
      (top bottom : W) (n : String) (es : List (Event W)) (r : MetricsRegistry W)
      → gauge n (replay top bottom es r) ≡ last_of (gauge n r) (settings n es)
  unfolding gauge replay apply
  replay-gauge top bottom n [] r = refl
  replay-gauge top bottom n (inc m a ∷ es) r =
      replay-gauge top bottom n es (apply top bottom (inc m a) r)
  replay-gauge top bottom n (set_gauge m a ∷ es) r =
      replay-gauge top bottom n es (apply top bottom (set_gauge m a) r)
      ∙ ground (arith, insert-get m n a nought r.gauges)
  replay-gauge top bottom n (observe m a ∷ es) r =
      replay-gauge top bottom n es (apply top bottom (observe m a) r)

  series-step :
      (top bottom : W) (n : String) (v : W) (vs : List W) (o : Option (Histogram W))
      → series top bottom n
          (some (take_in v (elim o [ none ↦ fresh top bottom n | some h ↦ h ])))
          vs
        ≡ series top bottom n o (v ∷ vs)
  series-step top bottom n v vs none = refl
  series-step top bottom n v vs (some h) = refl

  replay-histogram :
      (top bottom : W) (n : String) (es : List (Event W)) (r : MetricsRegistry W)
      → histogram n (replay top bottom es r) ≡ series top bottom n (histogram n r) (readings n es)
  unfolding histogram replay apply target
  replay-histogram top bottom n [] r = refl
  replay-histogram top bottom n (inc m a ∷ es) r =
      replay-histogram top bottom n es (apply top bottom (inc m a) r)
  replay-histogram top bottom n (set_gauge m a ∷ es) r =
      replay-histogram top bottom n es (apply top bottom (set_gauge m a) r)
  replay-histogram top bottom n (observe m a ∷ es) r =
      replay-histogram top bottom n es (apply top bottom (observe m a) r)
      ∙ (elim (Bool-cases (string_eq.beq m n)) [
        | inr differs ↦
            rw (lookup-insert m n (take_in a (target top bottom m r)) r.histograms, differs) refl
        | inl same ↦
            let e : m ≡ n = (string_eq.beq_iff m n).0 same in
            rw (lookup-insert m n (take_in a (target top bottom m r)) r.histograms, same, e)
              (series-step top bottom n a (readings n es) (lookup n r.histograms))
      ])

  -- What a histogram has after a series of observations.
  abbrev Tells : Histogram W → List W → Histogram W → Type 0
  Tells h vs after =
      (after.count ≡ h.count + length vs)
      × (after.total ≡ sum_from h.total vs)
      × (after.samples ≡ h.samples ++ take (h.max_samples - length h.samples) vs)

  -- The samples after one more reading, while there is room and when there is none.
  take_samples :
      (v : W) (vs : List W) (h : Histogram W)
      → length h.samples ≤ h.max_samples
      → (take_in v h).samples ++ take (h.max_samples - length (take_in v h).samples) vs
        ≡ h.samples ++ take (h.max_samples - length h.samples) (v ∷ vs)
  unfolding take_in
  take_samples v vs h room = elim (Bool-cases (ltb (length h.samples) h.max_samples)) [
    | inl more ↦
        let left = h.max_samples - length (h.samples ++ v ∷ []) in
        let room' : h.max_samples - length h.samples ≡ suc left =
          ground (arith, length-append h.samples (v ∷ [])) in
        rw (more, room') (append_assoc h.samples (v ∷ []) (take left vs))
    | inr full ↦
        let none_left : h.max_samples - length h.samples ≡ 0 = ground arith in
        rw (full, none_left) refl
  ]

  series-Tells :
      (top bottom : W) (n : String) (vs : List W) (h : Histogram W)
      → length h.samples ≤ h.max_samples
      → Ends (Tells h vs) (series top bottom n (some h) vs)
  unfolding take_in
  series-Tells top bottom n [] h room = (
    omega arith,
    refl,
    sym (
        ap (λ l. h.samples ++ l) (take-nil (h.max_samples - length h.samples))
        ∙ append-nil h.samples),
  )
  series-Tells top bottom n (v ∷ vs) h room =
      let h' = take_in v h in
      let fits : length h'.samples ≤ h'.max_samples =
        ground (arith, length-append h.samples (v ∷ [])) in
      Ends-mono (Tells h' vs) (Tells h (v ∷ vs)) _
        (λ after t. (omega (arith, t.0), t.1, t.2 ∙ take_samples v vs h room))
        (series-Tells top bottom n vs h' fits)

  -- After any calls on an empty registry, a counter is the sum of the amounts that were given for
  -- its name, in order, and a gauge is the last value set for its name, or zero. A name has a
  -- histogram exactly if it was observed, and this has the number of its observations as its
  -- count, their sum, and the first hundred thousand of them.
  pub replay-views :
      (top bottom : W) (n : String) (es : List (Event W))
      → let after = replay top bottom es empty_registry in
        (counter n after ≡ sum_from nought (amounts n es))
        × (gauge n after ≡ last_of nought (settings n es))
        × ((readings n es ≡ []) × (histogram n after ≡ none)
            ⊎ Ends
                (λ h.
                  (h.count ≡ length (readings n es))
                  × (h.total ≡ sum_from nought (readings n es))
                  × (h.samples ≡ take (10 ^ 5) (readings n es)))
                (histogram n after))
  unfolding counter gauge histogram empty_registry fresh
  replay-views top bottom n es = (
    replay-counter top bottom n es empty_registry,
    replay-gauge top bottom n es empty_registry,
    (elim (List-cases (readings n es)) [
      | inl nothing ↦
          inl (nothing, replay-histogram top bottom n es empty_registry ∙ rw nothing refl)
      | inr (v, vs, seen) ↦ inr (
          rw (replay-histogram top bottom n es empty_registry, seen)
            (Ends-mono (Tells (fresh top bottom n) (v ∷ vs)) _ _
              (λ h t. (omega (arith, t.0), t.1, t.2))
              (series-Tells top bottom n (v ∷ vs) (fresh top bottom n) (omega arith))))
    ]),
  )
