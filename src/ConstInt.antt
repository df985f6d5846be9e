-- ===== src/ConstInt.antt =====
-- Integer constants, compiler/types/otype_int.cpp and otype_int.h: the normal form of a value in an
-- integer type, and the evaluation of constant expressions.
pub mod Words
pub mod Normal
pub mod Fold
pub mod NormalLaws
pub mod LowBits
pub mod FoldLaws
pub mod DivLaws
