-- ===== src/Deffile.antt =====
-- The definition file of an image: pkg/build/types/definition.go and
-- pkg/build/types/parser/deffile.go.
pub mod Types
pub mod Texts
pub mod Scan
pub mod Regex
pub mod Sections
pub mod Header
pub mod Populate
pub mod Parse
mod Examples
pub mod Raw
