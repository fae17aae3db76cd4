-- ===== src/Fakeroot.antt =====
-- internal/pkg/fakeroot: the subuid and subgid mappings that the fakeroot feature uses.
pub mod Decimal
pub mod Entry
pub mod Lookup
pub mod Config
