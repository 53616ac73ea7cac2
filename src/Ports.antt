-- ===== src/Ports.antt =====
-- internal/portutil: which ports may be used and which are taken, and `AllowedRanges` of
-- internal/frpcfg/frpcfg.go: the whitelist that the server of a node is given.
pub mod Policy
pub mod Ranges
pub mod Listening
mod Tests
