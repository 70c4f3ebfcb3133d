-- ===== src/Endpoints.antt =====
-- The environment of an identity session, from endpoints.py.
pub mod Proxy
pub mod Identity
pub mod Render
mod Tests
