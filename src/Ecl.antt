-- ===== src/Ecl.antt =====
-- internal/pkg/syecl: the execution control list, which decides by the signatures of an image
-- whether it may run.
pub mod Hex
pub mod Config
pub mod Policy
pub mod Decide
