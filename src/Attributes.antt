-- ===== src/Attributes.antt =====
-- The attributes of symbols in interface files: WriteDqmIfAttributes of compiler/ast/symbols.cpp,
-- ReadAttributes and ApplyDqmIfAttributes of compiler/ast/module_intf.cpp.
pub mod Bits
pub mod State
pub mod Write
pub mod Read
pub mod Written
pub mod Taken
pub mod RoundTrip
