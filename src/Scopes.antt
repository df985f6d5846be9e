-- ===== src/Scopes.antt =====
-- Scopes, compiler/ast/oscope.cpp, and the symbols that a `use` selects, OModuleUse of
-- compiler/ast/symbols.cpp.
pub mod Maps
pub mod State
pub mod Lookup
pub mod Define
pub mod Assigned
pub mod Uses
pub mod Selected
pub mod LookupLaws
pub mod FallbackLaws
pub mod DefineLaws
pub mod AssignedLaws
pub mod UsesLaws
pub mod SelectedLaws
pub mod NamesLaws
