-- ===== src/Calls.antt =====
-- The choice of an overload or a constructor for a call: compiler/types/otype_func.cpp,
-- compiler/types/otype_compound.cpp and compiler/parser/dqc_parser_expr.cpp.
pub mod Signatures
pub mod Candidates
pub mod Select
pub mod SelectLaws
pub mod BestLaws
