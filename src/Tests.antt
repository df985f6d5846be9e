-- ===== src/Tests.antt =====
-- Concrete runs of the modelled code, and each theorem with a condition at a concrete input.
mod Interfaces
mod Readers
mod Blocks
mod Constants
mod Paths
mod Types
mod Scopes
mod Symbols
mod Calls
mod Expressions
mod Typing
