-- ===== src/Feeder.antt =====
-- The source reader OScFeederBase, compiler/parser/scf_base.cpp and scf_base.h: a cursor over the
-- bytes of one file that keeps the line and the column up to date while it consumes them.
pub mod State
pub mod Scan
pub mod Tokens
pub mod Tracking
pub mod ScanTracks
pub mod TokenTracks
pub mod Ops
pub mod LineStart
pub mod Values
pub mod Search
pub mod Quoted
pub mod Literals
