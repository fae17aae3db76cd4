-- ===== src/Container.antt =====
-- The container's configuration and its environment.
pub mod Generate
pub mod Env
pub mod Bind
