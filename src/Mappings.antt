-- ===== src/Mappings.antt =====
-- The mappings of the panel: internal/panel/store.go, and the checks of a request and
-- the handlers in internal/panel/handlers_mappings.go.
pub mod Store
pub mod Integrity
pub mod Lock
pub mod Validate
pub mod Handlers
mod Tests
