-- ===== src/Procmetrics.antt =====
-- internal/procmetrics: what the agent reads of its host's load.
pub mod Parse
pub mod Collector
mod Tests
