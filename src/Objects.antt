-- ===== src/Objects.antt =====
-- Objects and their inheritance: OCompoundType and OTypeObject of
-- compiler/types/otype_compound.cpp, without the generation of code.
pub mod Classes
pub mod Members
pub mod Virtual
pub mod Contracts
pub mod Keys
pub mod VirtualLaws
pub mod ContractLaws
