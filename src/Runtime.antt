-- ===== src/Runtime.antt =====
-- The host ports of a runtime container, from docker_runtime.py.
pub mod Layout
pub mod Block
pub mod Plan
pub mod Current
mod Tests
