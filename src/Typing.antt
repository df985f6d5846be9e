-- ===== src/Typing.antt =====
-- The types of binary expressions: compiler/ast/dqc_ast.cpp and compiler/ast/expressions.cpp.
pub mod Binary
pub mod Laws
