-- ===== src/Parser.antt =====
-- The expressions of compiler/parser/dqc_parser_expr.cpp: the levels of the binary operators, and the
-- comparisons above them.
pub mod Levels
pub mod Print
pub mod Steps
pub mod Lexing
pub mod LevelLaws
pub mod RoundTrip
pub mod Comparison
pub mod CompareSteps
pub mod RangeLaws
