-- ===== src/Metrics.antt =====
-- internal/metrics/metrics.go: the ring of realtime samples, the sequence watermark that drops
-- replayed samples, and the aggregate of one minute.
pub mod Float
pub mod Ring
pub mod Seq
pub mod Minute
mod Tests
