-- ===== src/Observability/Spans/Trees.antt =====
-- Tracer.span: nested `with` blocks leave the tree of their calls.
use Prim.Native.String.{◌++◌ as str_append}
use face_swap_streamer_versi.Prelude.{◌≡◌, refl, ap, sym, ◌∙◌, List, [], ◌∷◌}
use face_swap_streamer_versi.Floats.{Floats}
use face_swap_streamer_versi.Observability.Metrics.{MetricsRegistry, observe, replay}
use face_swap_streamer_versi.Observability.Metrics.Views.{replay-nil, replay-snoc, replay-append}
use face_swap_streamer_versi.Observability.Spans.{
  Span, Spans, span, nil, cons, Open, Tracer, append, attach, enter, leave, run_span, run_spans,
  durations, durations_all,
}

module _ {A W : Type 0} where
  append_assoc : (a b c : Spans A W) → append (append a b) c ≡ append a (append b c)
  unfolding append
  append_assoc nil b c = refl
  append_assoc (cons s a) b c = ap (cons s) (append_assoc a b c)

  append-nil : (a : Spans A W) → append a nil ≡ a
  unfolding append
  append-nil nil = refl
  append-nil (cons s a) = ap (cons s) (append-nil a)

  abbrev state : List (Open A W) → Spans A W → MetricsRegistry W → Tracer A W
  state st roots m = record { stack = st; completed_roots = roots; metrics = m }

  abbrev measured : MetricsRegistry W → Tracer A W → Tracer A W
  measured m t = record t { metrics = m }

  attach_twice :
      (a b : Spans A W) (st : List (Open A W)) (roots : Spans A W) (m m' : MetricsRegistry W)
      → attach b (measured m' (attach a (state st roots m)))
        ≡ attach (append a b) (state st roots m')
  unfolding attach
  attach_twice a b [] roots m m' = ap (λ r. state [] r m') (append_assoc roots a b)
  attach_twice a b (o ∷ st) roots m m' =
      ap (λ r. state (record o { children = r } ∷ st) roots m') (append_assoc o.children a b)

  attach_none :
      (st : List (Open A W)) (roots : Spans A W) (m : MetricsRegistry W)
      → attach nil (state st roots m) ≡ state st roots m
  unfolding attach
  attach_none [] roots m = ap (λ r. state [] r m) (append-nil roots)
  attach_none (o ∷ st) roots m =
      ap (λ r. state (record o { children = r } ∷ st) roots m) (append-nil o.children)

  metrics-attach :
      (a : Spans A W) (st : List (Open A W)) (roots : Spans A W) (m : MetricsRegistry W)
      → (attach a (state st roots m)).metrics ≡ m
  unfolding attach
  metrics-attach a [] roots m = refl
  metrics-attach a (o ∷ st) roots m = refl

mutual
  unfolding run_span durations leave enter attach append

  run_span-attach :
      {A W : Type 0} ⦃f : Floats W⦄ (top bottom : W) (s : Span A W) (t : Tracer A W)
      → run_span top bottom s t
        ≡ attach (cons s nil) (measured (replay top bottom (durations s) t.metrics) t)
  run_span-attach top bottom (span name d attributes children) t =
      ap (leave top bottom d) (run_spans-attach top bottom children (enter name attributes t))
      ∙ ap (λ m. attach (cons (span name d attributes children) nil) (measured m t))
          (sym (
            replay-snoc top bottom (observe (str_append "span." name) d) (durations_all children)
              t.metrics))

  run_spans-attach :
      {A W : Type 0} ⦃f : Floats W⦄ (top bottom : W) (ss : Spans A W) (t : Tracer A W)
      → run_spans top bottom ss t
        ≡ attach ss (measured (replay top bottom (durations_all ss) t.metrics) t)
  run_spans-attach top bottom nil t = sym (
      ap (λ m. attach nil (measured m t)) (replay-nil top bottom t.metrics)
      ∙ attach_none t.stack t.completed_roots t.metrics)
  run_spans-attach top bottom (cons s ss) t =
      let m = replay top bottom (durations s) t.metrics in
      let t' = attach (cons s nil) (measured m t) in
      ap (run_spans top bottom ss) (run_span-attach top bottom s t)
      ∙ run_spans-attach top bottom ss t'
      ∙ ap (λ r. attach ss (measured (replay top bottom (durations_all ss) r) t'))
          (metrics-attach (cons s nil) t.stack t.completed_roots m)
      ∙ attach_twice (cons s nil) ss t.stack t.completed_roots m
          (replay top bottom (durations_all ss) m)
      ∙ ap (λ r. attach (cons s ss) (measured r t))
          (sym (replay-append top bottom (durations s) (durations_all ss) t.metrics))

-- When no span is open, a program that opens and closes spans in the nesting of some call trees
-- leaves no span open, adds exactly these trees to the completed roots, in order, and reports the
-- duration of each span after those of its children.
pub run_spans-rebuilds :
    {A W : Type 0} ⦃f : Floats W⦄ (top bottom : W) (calls : Spans A W) (t : Tracer A W)
    → t.stack ≡ []
    → let after = run_spans top bottom calls t in
      (after.stack ≡ [])
      × (after.completed_roots ≡ append t.completed_roots calls)
      × (after.metrics ≡ replay top bottom (durations_all calls) t.metrics)
unfolding attach
run_spans-rebuilds top bottom calls t idle =
    rw (run_spans-attach top bottom calls t, idle) (refl, refl, refl)
