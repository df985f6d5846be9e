-- ===== src/TypeSpec.antt =====
-- The types of a module interface: the records that WriteDqmIfTypeSpec, compiler/ast/symbols.cpp,
-- writes and ReadTypeSpec, compiler/ast/module_intf.cpp, reads.
pub mod Types
pub mod Write
pub mod Read
pub mod Records
pub mod Storable
pub mod Written
pub mod Dispatch
pub mod Named
pub mod Taken
pub mod RoundTrip
pub mod Fuel
