-- ===== src/Attributes/Write.antt =====
-- OValSym::WriteDqmIfAttributes.
use dq_lang.Attributes.Bits.{word}
use dq_lang.Attributes.State.{
  Symbol, MemberVisibility, ObjectStorageKind, dqmif_attr_flags, dqmif_attr_align_value,
  dqmif_attr_ext_link_name, dqmif_attr_section_name, dqmif_attr_link_name, mv_private, mv_protected,
  osk_object_ref, osk_object_fixed,
}
use dq_lang.DqmIf.Writer.{Writer, add_rec_u64, add_rec_i32, add_rec_str}
use dq_lang.Prelude.{◌==◌, Bool, true, false, not, ◌||◌, Option, some, List, [], ◌∷◌, length}

abbrev pub is_object_ref : Option ObjectStorageKind → Bool
is_object_ref (some osk_object_ref) = true
is_object_ref _ = false

abbrev pub is_object_fixed : Option ObjectStorageKind → Bool
is_object_fixed (some osk_object_fixed) = true
is_object_fixed _ = false

abbrev pub is_private : MemberVisibility → Bool
is_private mv_private = true
is_private _ = false

abbrev pub is_protected : MemberVisibility → Bool
is_protected mv_protected = true
is_protected _ = false

-- The flags from DQMIF_ATTRF_OVERLOAD, bit 0, to DQMIF_ATTRF_USED, bit 19. The only flag that a caller
-- gives in aextra_flags is DQMIF_ATTRF_EXTERNAL.
abbrev pub flag_bits : Symbol → Bool → List Bool
flag_bits s extra_external =
    s.attr_is_overload
    ∷ s.attr_is_override
    ∷ s.attr_is_virtual
    ∷ s.attr_is_volatile
    ∷ s.is_ref_alias
    ∷ s.ref_nullable
    ∷ (s.attr_is_external || extra_external)
    ∷ s.attr_has_linkage_name
    ∷ is_object_ref s.object_storage
    ∷ is_object_fixed s.object_storage
    ∷ is_private s.member_visibility
    ∷ is_protected s.member_visibility
    ∷ s.attr_is_abstract
    ∷ s.attr_is_final
    ∷ s.attr_is_inline
    ∷ s.attr_is_always_inline
    ∷ s.attr_is_noinline
    ∷ s.attr_no_read
    ∷ s.attr_no_write
    ∷ s.attr_is_used
    ∷ []

-- if (condition && !writer.Add...) return false;
abbrev pub write_if : Bool → (Writer → Writer × Bool) → Writer × Bool → Writer × Bool
write_if b add (w, false) = (w, false)
write_if true add (w, true) = add w
write_if false add (w, true) = (w, true)

unfoldable pub write_attributes : Writer → Symbol → Bool → Writer × Bool
unfolding word add_rec_u64 add_rec_i32 add_rec_str
write_attributes w s extra_external =
    let flags = word (flag_bits s extra_external) in
    write_if s.attr_has_linkage_name (λ v. add_rec_str v dqmif_attr_link_name s.attr_linkage_name)
      (write_if (not (length s.attr_section_name == 0))
        (λ v. add_rec_str v dqmif_attr_section_name s.attr_section_name)
        (write_if (not (length s.attr_external_linkage_name == 0))
          (λ v. add_rec_str v dqmif_attr_ext_link_name s.attr_external_linkage_name)
          (write_if (not (s.attr_align == 0))
            (λ v. add_rec_i32 v dqmif_attr_align_value s.attr_align)
            (write_if (not (flags == 0)) (λ v. add_rec_u64 v dqmif_attr_flags flags) (w, true)))))
