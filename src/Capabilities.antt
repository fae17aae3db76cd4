-- ===== src/Capabilities.antt =====
-- pkg/util/capabilities: the table of capabilities, the normalisation of names that a user writes,
-- the capabilities that the administrator authorises, and the sets of the process.
pub mod Table
pub mod Normalize
pub mod Config
pub mod Process
