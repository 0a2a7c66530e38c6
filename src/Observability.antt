-- ===== src/Observability.antt =====
-- src/face_swap/observability.py: the metrics, the spans, the health checks and the frame counters
-- that a run reports. The locks are left out: each operation holds one from start to end.
pub mod Metrics
pub mod Spans
pub mod Health
pub mod Reliability
pub mod Samples
