-- ===== src/Frpc.antt =====
-- internal/panel/frpcmgr.go: the ports of the frpc processes, which of them run, how long to wait
-- before a restart, and the log that folds repeated lines; with the wait of internal/panel/nodeconn.go.
pub mod AdminPort
pub mod Backoff
pub mod Throttle
pub mod Processes
mod Tests
