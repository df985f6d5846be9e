-- ===== src/Utf8.antt =====
-- Character literals: DecodeSingleUtf8Scalar of compiler/parser/dqc_parser_expr.cpp.
pub mod Decode
pub mod Laws
