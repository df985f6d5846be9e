-- ===== src/DqmIf.antt =====
-- Module interface files, compiler/ast/dqm_if.cpp and dqm_if.h: a stream of records with a
-- 16-bit id and a 16-bit length, padded to four bytes, behind a header of 32 bytes.
pub mod Bytes
pub mod Writer
pub mod Reader
pub mod File
pub mod Padding
pub mod Records
pub mod Scalars
pub mod Stream
pub mod Group
pub mod Nested
