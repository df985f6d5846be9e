-- ===== src/Objects/Classes.antt =====
-- The fields of OTypeObject and OValSymFunc that inheritance depends on. A class has an address,
-- and a class with its bases is a list, the class itself first; base_type is the rest of the list.
use dq_lang.Calls.Signatures.{Signature}
use dq_lang.Scopes.Maps.{Map}
use dq_lang.Prelude.{ℕ, Bool, List, Bytes}

pub record Method : Type 0 where
  pub id : ℕ
  pub name : Bytes
  pub sig : Signature
  pub owner : ℕ
  pub is_virtual : Bool
  pub is_override : Bool
  pub is_abstract : Bool

-- A symbol of a class: a method, an overload set, or a field or property with its address.
pub data Member : Type 0 where
  method : Method → Member
  overload_set : List Method → Member
  plain : ℕ → Member

pub record Property : Type 0 where
  pub id : ℕ
  pub is_default : Bool

-- member_scope.valsyms is a map in the order of its keys.
pub record Class : Type 0 where
  pub id : ℕ
  pub valsyms : Map Member
  pub member_order : List Bytes
  pub properties : List Property
  pub constructors : List Method
  pub virtual_methods : List Method
  pub is_polymorphic : Bool
  pub is_abstract : Bool

abbrev pub Chain : Type 0
Chain = List Class
