-- ===== src/Mount.antt =====
-- The mount points of a container: internal/pkg/util/fs/mount.
pub mod Flags
pub mod Points
pub mod Adders
pub mod Import
pub mod System
pub mod Images
