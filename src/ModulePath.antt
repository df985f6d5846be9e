-- ===== src/ModulePath.antt =====
-- Module paths, compiler/ast/module_path.cpp and module_path.h: the names in a `use`, and the
-- modules that they stand for.
pub mod Items
pub mod Resolve
pub mod ItemLaws
pub mod Climbs
pub mod NormalizeLaws
pub mod ResolveLaws
