-- ===== src/Attributes/State.antt =====
-- The attributes of an OValSym, and those of an interface file.
use dq_lang.Prelude.{ℕ, Bool, Option, Bytes, []}

pub data MemberVisibility : Type 0 where
  mv_private mv_protected mv_public : MemberVisibility

pub data ObjectStorageKind : Type 0 where
  osk_plain osk_object_ref osk_object_fixed : ObjectStorageKind

-- A symbol: `is_function` stands for an OValSymFunc, and `object_storage` is there for an OVsObject.
pub record Symbol : Type 0 where
  pub is_function : Bool
  pub object_storage : Option ObjectStorageKind
  pub attr_is_overload : Bool
  pub attr_is_override : Bool
  pub attr_is_virtual : Bool
  pub attr_is_volatile : Bool
  pub is_ref_alias : Bool
  pub ref_nullable : Bool
  pub attr_is_external : Bool
  pub attr_has_linkage_name : Bool
  pub member_visibility : MemberVisibility
  pub attr_is_abstract : Bool
  pub attr_is_final : Bool
  pub attr_is_inline : Bool
  pub attr_is_always_inline : Bool
  pub attr_is_noinline : Bool
  pub attr_no_read : Bool
  pub attr_no_write : Bool
  pub attr_is_used : Bool
  pub attr_align : ℕ
  pub attr_external_linkage_name : Bytes
  pub attr_section_name : Bytes
  pub attr_linkage_name : Bytes

-- SDqmIfAttributes
pub record IfAttributes : Type 0 where
  pub flags : ℕ
  pub align : ℕ
  pub external_linkage_name : Bytes
  pub external_module_name : Bytes
  pub linkage_name : Bytes
  pub section_name : Bytes

abbrev pub no_attributes : IfAttributes
no_attributes = record {
  flags = 0;
  align = 0;
  external_linkage_name = [];
  external_module_name = [];
  linkage_name = [];
  section_name = [];
}

abbrev pub dqmif_attr_flags : ℕ
dqmif_attr_flags = 33280

abbrev pub dqmif_attr_align_value : ℕ
dqmif_attr_align_value = 33281

abbrev pub dqmif_attr_ext_link_name : ℕ
dqmif_attr_ext_link_name = 33282

abbrev pub dqmif_attr_section_name : ℕ
dqmif_attr_section_name = 33283

abbrev pub dqmif_attr_link_name : ℕ
dqmif_attr_link_name = 33284

abbrev pub dqmif_attr_ext_module_name : ℕ
dqmif_attr_ext_module_name = 33285
