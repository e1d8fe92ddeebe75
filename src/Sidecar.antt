-- ===== src/Sidecar.antt =====
-- The sidecar process: its environment, its binary, its events and the connection of adapter.py to it.
pub mod Child
pub mod Secrets
pub mod Isolation
pub mod Session
pub mod Reap
pub mod Prebuilt
pub mod Standalone
pub mod Connect
mod Tests
