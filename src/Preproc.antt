-- ===== src/Preproc.antt =====
-- The preprocessor OScFeederDq, compiler/parser/scf_dq.cpp and scf_dq.h: conditional directives in a
-- chain of open conditions, read from the text by the source reader.
pub mod State
pub mod Branches
pub mod Directives
pub mod Items
pub mod Steps
pub mod Blocks
pub mod Recovery
pub mod Skipping
pub mod LineGaps
pub mod Inactive
