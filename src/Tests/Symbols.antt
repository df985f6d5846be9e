-- ===== src/Tests/Symbols.antt =====
-- Attributes, layouts and character literals.
use dq_lang.Attributes.State.{
  Symbol, IfAttributes, no_attributes, mv_protected, mv_public, osk_object_ref, osk_object_fixed,
}
use dq_lang.Attributes.Write.{write_attributes}
use dq_lang.Attributes.Read.{read_attributes, apply_attributes}
use dq_lang.Attributes.RoundTrip.{apply_attributes-read_attributes}
use dq_lang.DqmIf.Reader.{Reader, empty_reader, next_rec, record_bytes}
use dq_lang.DqmIf.Records.{reader_at}
use dq_lang.DqmIf.Writer.{Writer, add_rec_bytes}
use dq_lang.Layout.Compound.{
  Member, Compound, field_align, field_start, after_field, struct_loop, finish_struct, start_struct,
  ensure_layout,
}
use dq_lang.Layout.Align.{align_up_u32}
use dq_lang.Layout.Laws.{InOrder, ensure_layout-InOrder}
use dq_lang.Layout.Packed.{ensure_layout_wraps}
use dq_lang.Prelude.{
  ℕ, ◌%◌, ◌≡◌, ◌↔◌, refl, true, false, none, some, [], ◌∷◌, ◌++◌, arith, map, codes,
}
use dq_lang.Utf8.Decode.{decode_single_utf8_scalar}
use dq_lang.Utf8.Laws.{IsScalar, encode, decode_single_utf8_scalar_iff}

-- A public object, new and with attributes.
abbrev fresh : Symbol
fresh = record {
  is_function = false;
  object_storage = some osk_object_ref;
  attr_is_overload = false;
  attr_is_override = false;
  attr_is_virtual = false;
  attr_is_volatile = false;
  is_ref_alias = false;
  ref_nullable = false;
  attr_is_external = false;
  attr_has_linkage_name = false;
  member_visibility = mv_public;
  attr_is_abstract = false;
  attr_is_final = false;
  attr_is_inline = false;
  attr_is_always_inline = false;
  attr_is_noinline = false;
  attr_no_read = false;
  attr_no_write = false;
  attr_is_used = false;
  attr_align = 0;
  attr_external_linkage_name = [];
  attr_section_name = [];
  attr_linkage_name = [];
}

abbrev fixed : Symbol
fixed = record fresh {
  object_storage = some osk_object_fixed;
  attr_is_volatile = true;
  member_visibility = mv_protected;
  attr_align = 16;
  attr_section_name = codes "ram";
}

abbrev writer : Writer
writer = record { payload = []; error = none }

apply_attributes-read_attributes_example :
    let w' = (write_attributes writer fixed false).0 in
    let p = (add_rec_bytes w' 32768 (codes "int")).0.payload ++ [] in
    let n = (next_rec (reader_at p 0 empty_reader)).0 in
    ((write_attributes writer fixed false).1 ≡ true)
    × ((m : Reader) × (a : IfAttributes) × (read_attributes 6 n no_attributes ≡ some (m, some a))
        × (m.recid ≡ 32768)
        × (record_bytes m ≡ codes "int")
        × (apply_attributes fresh a ≡ fixed))
apply_attributes-read_attributes_example =
    apply_attributes-read_attributes fixed fresh 6 32768 (codes "int") [] writer empty_reader refl
      refl refl (λ e. ground arith) (omega arith, omega arith, omega arith, omega arith) (λ e. refl)
      refl (omega arith) (omega arith) (omega arith) refl

abbrev byte : Member
byte = record { bytesize = 1; alignsize = 1; attr_align = 0 }

abbrev long : Member
long = record { bytesize = 8; alignsize = 8; attr_align = 0 }

-- A byte, a missing member and a long integer, in an object with virtual functions.
abbrev object_of_two : Compound
object_of_two = record {
  is_union = false;
  is_packed = false;
  is_polymorphic = true;
  base_type = none;
  member_order = some byte ∷ none ∷ some long ∷ [];
}

ensure_layout-offsets :
    map (λ (f : Member × ℕ). f.1) (ensure_layout 8 object_of_two).fields ≡ 8 ∷ 16 ∷ []
unfolding ensure_layout finish_struct struct_loop field_start after_field field_align align_up_u32
    start_struct
ensure_layout-offsets = refl

ensure_layout-InOrder_example :
    let l = ensure_layout 8 object_of_two in
    InOrder 8 l.fields l.bytesize l.alignsize
    × (map (λ (f : Member × ℕ). f.0) l.fields ≡ byte ∷ long ∷ [])
    × (l.bytesize % l.alignsize ≡ 0)
unfolding start_struct field_align
ensure_layout-InOrder_example = ensure_layout-InOrder 8 object_of_two refl refl (omega arith)

abbrev packed : Compound
packed = record object_of_two { is_packed = true; is_polymorphic = false }

ensure_layout_wraps_example : (ensure_layout 8 packed).bytesize ≡ 9
unfolding start_struct
ensure_layout_wraps_example = ensure_layout_wraps 8 packed refl refl (omega arith)

abbrev union : Compound
union = record object_of_two { is_union = true }

-- The euro sign.
decode_single_utf8_scalar_iff_example :
    (decode_single_utf8_scalar (226 ∷ 130 ∷ 172 ∷ []) ≡ some 8364)
    ↔ (IsScalar 8364 × ((226 ∷ 130 ∷ 172 ∷ []) ≡ encode 8364))
decode_single_utf8_scalar_iff_example =
    decode_single_utf8_scalar_iff (226 ∷ 130 ∷ 172 ∷ []) 8364
      (omega arith, (omega arith, (omega arith, tt)))
