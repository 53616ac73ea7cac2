-- ===== src/Pipeline.antt =====
-- internal/panel/pipeline.go: the panel's side of the traffic accounting. A sample is folded in once
-- by its sequence number (`account`), and a flush writes what has piled up to the database and
-- moves the durable watermark (`flush`).
pub mod State
pub mod Account
pub mod Flush
pub mod Ledger
pub mod Drain
pub mod Steps
pub mod ExactlyOnce
pub mod Watermark
pub mod Lost
mod Tests
