-- ===== src/Panel.antt =====
-- internal/panel, but for the pipeline, the mappings and the processes of frpc.
pub mod Latency
pub mod Hub
pub mod Link
pub mod Errors
pub mod Session
pub mod Nodes
pub mod Settings
pub mod Sync
mod Tests
