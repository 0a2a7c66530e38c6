-- ===== src/Observability/Spans.antt =====
-- src/face_swap/observability.py, Span and Tracer: nested timings. A span is opened and closed by a
-- `with` block, so the last one opened is the first one closed, also when the block raises. The
-- durations come from the clock.
pub mod Trees
use face_swap_streamer_versi.Prelude.{ℕ, ◌≡◌, refl, ap, sym, ◌∙◌, List, [], ◌∷◌, ◌++◌, String, Dict}
use Prim.Native.String.{◌++◌ as str_append}
use mathlib.Core.List.{append_assoc}
use face_swap_streamer_versi.Floats.{Floats}
use face_swap_streamer_versi.Observability.Metrics.{MetricsRegistry, Event, observe, apply, replay}

-- A closed span, and a list of spans in the order in which they were closed.
mutual
  pub data Span (A W : Type 0) : Type 0 where
    span : String → W → Dict String A → Spans A W → Span A W

  pub data Spans (A W : Type 0) : Type 0 where
    nil : Spans A W
    cons : Span A W → Spans A W → Spans A W

-- A span that is not closed yet.
pub record Open (A W : Type 0) : Type 0 where
  pub name : String
  pub attributes : Dict String A
  pub children : Spans A W

-- The tracer, and the chain of parents that the context variable holds, innermost first.
pub record Tracer (A W : Type 0) : Type 0 where
  pub stack : List (Open A W)
  pub completed_roots : Spans A W
  pub metrics : MetricsRegistry W

module _ {A W : Type 0} where
  -- children.append(...)
  pub append : Spans A W → Spans A W → Spans A W
  append nil bs = bs
  append (cons a as') bs = cons a (append as' bs)

  pub attach : Spans A W → Tracer A W → Tracer A W
  unfolding append
  attach new t = elim t.stack [
    | [] ↦ record t { completed_roots = append t.completed_roots new }
    | p ∷ ps ↦ record t { stack = record p { children = append p.children new } ∷ ps }
  ]

  -- Up to the `yield` of `span`.
  pub enter : String → Dict String A → Tracer A W → Tracer A W
  enter name attributes t = record t {
    stack = record { name = name; attributes = attributes; children = nil } ∷ t.stack;
  }

module _ {A W : Type 0} ⦃f : Floats W⦄ (top bottom : W) where
  -- The `finally` of `span`.
  pub leave : W → Tracer A W → Tracer A W
  unfolding attach
  leave duration t = elim t.stack [
    | [] ↦ t
    | o ∷ outer ↦ attach (cons (span o.name duration o.attributes o.children) nil) (record t {
      stack = outer;
      metrics = apply top bottom (observe (str_append "span." o.name) duration) t.metrics;
    })
  ]

unfoldable mutual
  -- A program that opens and closes spans as the tree says.
  pub run_span : {A W : Type 0} ⦃f : Floats W⦄ (top bottom : W) → Span A W → Tracer A W → Tracer A W
  run_span top bottom (span name duration attributes children) t =
      leave top bottom duration (run_spans top bottom children (enter name attributes t))

  pub run_spans :
      {A W : Type 0} ⦃f : Floats W⦄ (top bottom : W) → Spans A W → Tracer A W → Tracer A W
  run_spans top bottom nil t = t
  run_spans top bottom (cons s ss) t = run_spans top bottom ss (run_span top bottom s t)

unfoldable mutual
  -- The durations of a tree, each span after its children.
  pub durations : {A W : Type 0} → Span A W → List (Event W)
  durations (span name duration attributes children) =
      durations_all children ++ observe (str_append "span." name) duration ∷ []

  pub durations_all : {A W : Type 0} → Spans A W → List (Event W)
  durations_all nil = []
  durations_all (cons s ss) = durations s ++ durations_all ss
