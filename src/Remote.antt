-- ===== src/Remote.antt =====
-- internal/pkg/remote: the remote endpoints, their keyservers and the stored credentials.
pub mod Uri
pub mod Keyservers
pub mod Config
pub mod Login
