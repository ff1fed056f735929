-- ===== src/Root.antt =====
-- The root package, gor: its errors, its lifecycle, and the way of a call to its owner.
pub mod Errors
pub mod Lifecycle
pub mod Routing
pub mod Forward
pub mod Context
pub mod Config
pub mod Types
pub mod Shutdown
pub mod Reminders
