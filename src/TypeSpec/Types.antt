-- ===== src/TypeSpec/Types.antt =====
-- OType as far as its type specification depends on it, and the ids of the records.
use dq_lang.Prelude.{ℕ, Bool, true, false, Option, none, some, Bytes}

-- ETypeKind, with one value for the kinds that no specification tells apart.
pub data TypeKind : Type 0 where
  tk_object tk_pointer tk_array tk_array_slice tk_dyn_array tk_autofree tk_object_type tk_other :
      TypeKind

-- A type with a module name (empty: no module, or one without a name) and a name, or one that is
-- built from others. An untyped pointer has no base type or is opaque. Function types are left out.
pub data Ty : Type 0 where
  object : Bytes → Bytes → Ty
  simple : Bytes → Bytes → Ty
  alias : Bytes → Bytes → Ty → Ty
  nil_pointer : Ty
  untyped_pointer : Bytes → Bytes → Ty
  pointer : Ty → Ty
  array : Ty → ℕ → Ty
  slice : Ty → Ty
  dyn_array : Ty → Ty
  autofree : Ty → Ty
  object_type : Bytes → Bytes → Ty

-- An alias has the kind of the type that it stands for.
unfoldable pub kind : Ty → TypeKind
kind (object m n) = tk_object
kind (simple m n) = tk_other
kind (alias m n t) = kind t
kind nil_pointer = tk_pointer
kind (untyped_pointer m n) = tk_pointer
kind (pointer t) = tk_pointer
kind (array t n) = tk_array
kind (slice t) = tk_array_slice
kind (dyn_array t) = tk_dyn_array
kind (autofree t) = tk_autofree
kind (object_type m n) = tk_object_type

unfoldable pub resolve_alias : Ty → Ty
resolve_alias (alias m n t) = resolve_alias t
resolve_alias (autofree t) = resolve_alias t
resolve_alias t = t

abbrev pub is_object_type : TypeKind → Bool
is_object_type tk_object_type = true
is_object_type _ = false

-- The kinds that WriteDqmIfTypeSpec puts between BEGIN and END.
abbrev pub is_complex : TypeKind → Bool
is_complex tk_object = false
is_complex tk_other = false
is_complex _ = true

-- The kinds that autofree can qualify.
abbrev pub is_ownable : TypeKind → Bool
is_ownable tk_object = true
is_ownable tk_pointer = true
is_ownable _ = false

-- dynamic_cast<OTypeObject *>: the module and the name of an object type.
abbrev pub as_object : Ty → Option (Bytes × Bytes)
as_object (object m n) = some (m, n)
as_object _ = none

abbrev pub dqmif_type_spec_simple : ℕ
dqmif_type_spec_simple = 32768

abbrev pub dqmif_type_spec_begin : ℕ
dqmif_type_spec_begin = 32769

abbrev pub dqmif_type_spec_name : ℕ
dqmif_type_spec_name = 32770

abbrev pub dqmif_type_spec_ptr : ℕ
dqmif_type_spec_ptr = 32771

abbrev pub dqmif_type_spec_qualified : ℕ
dqmif_type_spec_qualified = 32772

abbrev pub dqmif_type_spec_end : ℕ
dqmif_type_spec_end = 33023

abbrev pub dqmif_type_spec_array_begin : ℕ
dqmif_type_spec_array_begin = 32784

abbrev pub dqmif_type_spec_array_end : ℕ
dqmif_type_spec_array_end = 32799

abbrev pub dqmif_type_spec_slice_begin : ℕ
dqmif_type_spec_slice_begin = 32800

abbrev pub dqmif_type_spec_slice_end : ℕ
dqmif_type_spec_slice_end = 32815

abbrev pub dqmif_type_spec_dyn_array_begin : ℕ
dqmif_type_spec_dyn_array_begin = 32816

abbrev pub dqmif_type_spec_dyn_array_end : ℕ
dqmif_type_spec_dyn_array_end = 32831

abbrev pub dqmif_type_spec_autofree_begin : ℕ
dqmif_type_spec_autofree_begin = 32832

abbrev pub dqmif_type_spec_autofree_end : ℕ
dqmif_type_spec_autofree_end = 32847

abbrev pub dqmif_type_spec_funcref : ℕ
dqmif_type_spec_funcref = 33008

abbrev pub dqmif_type_spec_objfuncref : ℕ
dqmif_type_spec_objfuncref = 33016

abbrev pub dqmif_type_spec_object_type : ℕ
dqmif_type_spec_object_type = 33020

abbrev pub dqmif_type_spec_object_type_qual : ℕ
dqmif_type_spec_object_type_qual = 33021
