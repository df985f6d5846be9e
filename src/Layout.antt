-- ===== src/Layout.antt =====
-- The layout of structs, unions and objects: OCompoundType::EnsureLayout of
-- compiler/types/otype_compound.cpp, and AlignUpU32 of compiler/ast/symbols.cpp.
pub mod Align
pub mod Compound
pub mod Laws
pub mod Packed
