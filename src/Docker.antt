-- ===== src/Docker.antt =====
-- The Docker resources of a runtime, from docker_runtime.py: whose they are, and what creates and
-- removes them.
pub mod Labels
pub mod Store
pub mod Resolve
pub mod Children
pub mod Remove
pub mod Calls
pub mod Create
pub mod Lifecycle
mod Tests
