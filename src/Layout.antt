-- ===== src/Layout.antt =====
-- The layout of a session directory: internal/pkg/util/fs/layout.
pub mod Manager
pub mod Sync
pub mod Session
pub mod Underlay
pub mod Create
