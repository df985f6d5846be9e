-- ===== src/Attributes/Read.antt =====
-- OModuleIntf::ReadAttributes and ApplyDqmIfAttributes.
use dq_lang.Attributes.Bits.{has_bit}
use dq_lang.Attributes.State.{
  Symbol, IfAttributes, MemberVisibility, ObjectStorageKind, dqmif_attr_flags,
  dqmif_attr_align_value, dqmif_attr_ext_link_name, dqmif_attr_section_name, dqmif_attr_link_name,
  dqmif_attr_ext_module_name, mv_private, mv_protected, mv_public, osk_object_ref, osk_object_fixed,
}
use dq_lang.DqmIf.Reader.{Reader, Read, fail, next_rec, read_u64, read_i32, read_string}
use dq_lang.DqmIf.Writer.{bad_align}
use dq_lang.Prelude.{
  ℕ, zero, suc, ◌-◌, ◌^◌, Bool, true, false, not, ◌&&◌, ◌||◌, Option, none, some, [], ltb, ◌==◌,
  if◌then◌else◌,
}

abbrev pub is_attribute : ℕ → Bool
is_attribute id =
    id == dqmif_attr_flags
    || id == dqmif_attr_align_value
    || id == dqmif_attr_ext_link_name
    || id == dqmif_attr_section_name
    || id == dqmif_attr_link_name
    || id == dqmif_attr_ext_module_name

-- The value of a record, put in its place.
abbrev pub stored : {A : Type 0} → (A → IfAttributes) → Read A → Read IfAttributes
stored put (r, none) = (r, none)
stored put (r, some a) = (r, some (put a))

-- align < 0 in two's complement.
abbrev pub aligned : IfAttributes → Read ℕ → Read IfAttributes
aligned a (r, none) = ((fail r bad_align).0, none)
aligned a (r, some n) =
    if ltb (2 ^ 31 - 1) n then ((fail r bad_align).0, none) else (r, some (record a { align = n }))

-- One round of ReadAttributes before its NextRec.
unfoldable pub read_attribute : Reader → IfAttributes → Read IfAttributes
unfolding read_u64 read_i32 read_string fail
read_attribute r a =
    if r.recid == dqmif_attr_flags
    then stored (λ v. record a { flags = v }) (read_u64 r)
    else if r.recid == dqmif_attr_align_value
    then aligned a (read_i32 r)
    else if r.recid == dqmif_attr_ext_link_name
    then stored (λ v. record a { external_linkage_name = v }) (read_string r)
    else if r.recid == dqmif_attr_section_name
    then stored (λ v. record a { section_name = v }) (read_string r)
    else if r.recid == dqmif_attr_link_name
    then stored (λ v. record a { linkage_name = v }) (read_string r)
    else stored (λ v. record a { external_module_name = v }) (read_string r)

-- The loop, with fuel; `none` means that it ran out.
unfoldable pub read_attributes : ℕ → Reader → IfAttributes → Option (Read IfAttributes)
unfolding read_attribute next_rec
read_attributes zero r a = none
read_attributes (suc f) r a = elim (is_attribute r.recid) [
  | false ↦ some (r, some a)
  | true ↦ elim (read_attribute r a).1 [
    | none ↦ some ((read_attribute r a).0, none)
    | some b ↦ elim (next_rec (read_attribute r a).0).1 [
      | false ↦ some ((next_rec (read_attribute r a).0).0, none)
      | true ↦ read_attributes f (next_rec (read_attribute r a).0).0 b
    ]
  ]
]

-- SetObjectStorage, of an OVsObject only.
abbrev pub with_storage : Option ObjectStorageKind → Bool → Bool → Option ObjectStorageKind
with_storage none ref fixed = none
with_storage (some k) true fixed = some osk_object_ref
with_storage (some k) false true = some osk_object_fixed
with_storage (some k) false false = some k

abbrev pub visibility : Bool → Bool → MemberVisibility
visibility true protected = mv_private
visibility false true = mv_protected
visibility false false = mv_public

-- The symbol with the bits of the flags.
abbrev pub apply_bits : Symbol → (ℕ → Bool) → IfAttributes → Symbol
apply_bits s bits a = record {
  is_function = s.is_function;
  object_storage = with_storage s.object_storage (bits 8) (bits 9);
  attr_is_overload = bits 0;
  attr_is_override = bits 1;
  attr_is_virtual = bits 2;
  attr_is_volatile = bits 3;
  is_ref_alias = bits 4;
  ref_nullable = bits 5;
  attr_is_external = not s.is_function && bits 6;
  attr_has_linkage_name = bits 7;
  member_visibility = visibility (bits 10) (bits 11);
  attr_is_abstract = bits 12;
  attr_is_final = bits 13;
  attr_is_inline = bits 14;
  attr_is_always_inline = bits 15;
  attr_is_noinline = bits 16;
  attr_no_read = bits 17;
  attr_no_write = bits 18;
  attr_is_used = bits 19;
  attr_align = a.align;
  attr_external_linkage_name = if s.is_function then [] else a.external_linkage_name;
  attr_section_name = a.section_name;
  attr_linkage_name = a.linkage_name;
}

unfoldable pub apply_attributes : Symbol → IfAttributes → Symbol
unfolding has_bit
apply_attributes s a = apply_bits s (λ k. has_bit k a.flags) a
