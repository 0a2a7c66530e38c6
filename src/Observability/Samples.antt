-- ===== src/Observability/Samples.antt =====
-- Observability: a short run, and the theorems at it.
use face_swap_streamer_versi.Prelude.{◌^◌, ◌≡◌, refl, List, [], ◌∷◌, String}
use face_swap_streamer_versi.Floats.Fixed.{ℤ, pos, negsuc, fixed_floats}
use face_swap_streamer_versi.Observability.Metrics.{Event, inc, set_gauge, observe, replay}
use face_swap_streamer_versi.Observability.Spans.{
  Spans, span, nil, cons, Tracer, append, run_spans, durations_all,
}
use face_swap_streamer_versi.Observability.Spans.Trees.{run_spans-rebuilds}

abbrev top : ℤ
top = pos (10 ^ 12)

abbrev bottom : ℤ
bottom = negsuc (10 ^ 12)

abbrev calls : List (Event ℤ)
calls =
    inc "frames" (pos 1000)
    ∷ observe "latency" (pos 20)
    ∷ inc "frames" (pos 1000)
    ∷ set_gauge "vram" (pos 7)
    ∷ []

abbrev tree : Spans String ℤ
tree =
    cons
      (span "frame" (pos 30) []
        (cons (span "detect" (pos 10) [] nil) (cons (span "swap" (pos 15) [] nil) nil)))
      nil

abbrev idle : Tracer String ℤ
idle = record {
  stack = [];
  completed_roots = nil;
  metrics = record { counters = []; gauges = []; histograms = [] };
}

run_spans-rebuilds_example :
    let after = run_spans top bottom tree idle in
    (after.stack ≡ [])
    × (after.completed_roots ≡ append nil tree)
    × (after.metrics ≡ replay top bottom (durations_all tree) idle.metrics)
run_spans-rebuilds_example = run_spans-rebuilds top bottom tree idle refl
