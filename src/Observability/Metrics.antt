-- ===== src/Observability/Metrics.antt =====
-- src/face_swap/observability.py, Histogram and MetricsRegistry. `top` and `bottom` are the floats
-- inf and -inf.
pub mod Views
use face_swap_streamer_versi.Prelude.{
  ◌≡◌, refl, ℕ, ◌+◌, ◌^◌, Bool, true, false, ltb, if◌then◌else◌, List, [], ◌∷◌, ◌++◌, Option, none,
  some, String, Dict, Eq, string_eq, lookup, insert, get_or, length,
}
use face_swap_streamer_versi.Floats.{Floats, nought, fmax, fmin}

pub record Histogram (W : Type 0) : Type 0 where
  pub name : String
  pub samples : List W
  pub max_samples : ℕ
  pub count : ℕ
  pub total : W
  pub min : W
  pub max : W

pub record MetricsRegistry (W : Type 0) : Type 0 where
  pub counters : Dict String W
  pub gauges : Dict String W
  pub histograms : Dict String (Histogram W)

-- A call of one of the three writing methods.
pub data Event (W : Type 0) : Type 0 where
  inc : String → W → Event W
  set_gauge : String → W → Event W
  observe : String → W → Event W

module _ {W : Type 0} ⦃f : Floats W⦄ where
  -- The constructor, with its defaults.
  pub fresh : W → W → String → Histogram W
  fresh top bottom name = record {
    name = name;
    samples = [];
    max_samples = 10 ^ 5;
    count = 0;
    total = nought;
    min = top;
    max = bottom;
  }

  -- Histogram.observe
  pub take_in : W → Histogram W → Histogram W
  take_in value h = record h {
    count = h.count + 1;
    total = f.add h.total value;
    min = fmin h.min value;
    max = fmax h.max value;
    samples = if ltb (length h.samples) h.max_samples then h.samples ++ value ∷ [] else h.samples;
  }

  pub mean : Histogram W → W
  mean h = if ltb 0 h.count then f.div h.total (f.dec h.count 0) else nought

  pub counter : String → MetricsRegistry W → W
  counter name r = get_or name nought r.counters

  pub gauge : String → MetricsRegistry W → W
  gauge name r = get_or name nought r.gauges

  pub histogram : String → MetricsRegistry W → Option (Histogram W)
  histogram name r = lookup name r.histograms

  -- The histogram that `observe` writes to: the registered one, or a new one.
  pub target : W → W → String → MetricsRegistry W → Histogram W
  unfolding fresh
  target top bottom name r = elim (lookup name r.histograms) [
    | none ↦ fresh top bottom name
    | some h ↦ h
  ]

  pub apply : W → W → Event W → MetricsRegistry W → MetricsRegistry W
  unfolding take_in target
  apply top bottom (inc name amount) r = record r {
    counters = insert name (f.add (get_or name nought r.counters) amount) r.counters;
  }
  apply top bottom (set_gauge name value) r = record r { gauges = insert name value r.gauges }
  apply top bottom (observe name value) r = record r {
    histograms = insert name (take_in value (target top bottom name r)) r.histograms;
  }

  -- Only set_gauge changes a gauge.
  pub gauge-inc :
      (top bottom : W) (name key : String) (amount : W) (r : MetricsRegistry W)
      → gauge key (apply top bottom (inc name amount) r) ≡ gauge key r
  unfolding apply gauge
  gauge-inc top bottom name key amount r = refl

  pub gauge-observe :
      (top bottom : W) (name key : String) (value : W) (r : MetricsRegistry W)
      → gauge key (apply top bottom (observe name value) r) ≡ gauge key r
  unfolding apply gauge
  gauge-observe top bottom name key value r = refl

  pub replay : W → W → List (Event W) → MetricsRegistry W → MetricsRegistry W
  unfolding apply
  replay top bottom [] r = r
  replay top bottom (e ∷ es) r = replay top bottom es (apply top bottom e r)

  pub empty_registry : MetricsRegistry W
  empty_registry = record { counters = []; gauges = []; histograms = [] }

  -- A series of observations by one histogram.
  pub take_all : List W → Histogram W → Histogram W
  unfolding take_in
  take_all [] h = h
  take_all (v ∷ vs) h = take_all vs (take_in v h)
