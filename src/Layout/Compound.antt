-- ===== src/Layout/Compound.antt =====
-- EnsureLayout: the offsets of the members, the size and the alignment.
use dq_lang.Prelude.{
  ℕ, ◌+◌, ◌%◌, ◌^◌, Bool, true, not, ◌&&◌, ◌||◌, Option, none, some, List, [], ◌∷◌, ltb, ◌==◌,
  if◌then◌else◌,
}
use dq_lang.Layout.Align.{align_up_u32, max_u32, effective_storage_align}

-- A member with the size and the alignment that its storage type has after its own EnsureLayout, all
-- numbers below 2^32. A null member, or one without a type, is `none` in a compound's list.
pub record Member : Type 0 where
  pub bytesize : ℕ
  pub alignsize : ℕ
  pub attr_align : ℕ

-- The base type's size and alignment after its EnsureLayout.
pub record Compound : Type 0 where
  pub is_union : Bool
  pub is_packed : Bool
  pub is_polymorphic : Bool
  pub base_type : Option (ℕ × ℕ)
  pub member_order : List (Option Member)

-- The members with their field_offset, and what the type is left with.
pub record Layout : Type 0 where
  pub fields : List (Member × ℕ)
  pub bytesize : ℕ
  pub alignsize : ℕ
  pub manual_ll_layout : Bool

-- The loop over the members of a union: the fields, max_size and max_align.
unfoldable pub union_loop : List (Option Member) → ℕ → ℕ → List (Member × ℕ) × ℕ × ℕ
unfolding effective_storage_align
union_loop [] max_size max_align = ([], max_size, max_align)
union_loop (none ∷ ms) max_size max_align = union_loop ms max_size max_align
union_loop (some m ∷ ms) max_size max_align =
    let (fields, size, align) =
      union_loop ms (max_u32 max_size m.bytesize)
        (max_u32 max_align (effective_storage_align m.alignsize m.attr_align)) in
    ((m, 0) ∷ fields, size, align)

unfoldable pub union_layout : Compound → Layout
unfolding union_loop align_up_u32
union_layout c =
    let (fields, size, align) = union_loop c.member_order 0 1 in
    record {
      fields = fields;
      bytesize = align_up_u32 size align;
      alignsize = align;
      manual_ll_layout = true;
    }

-- field_align of a member that is not packed.
unfoldable pub field_align : Member → ℕ
field_align m =
    let own = max_u32 m.alignsize 1 in if m.attr_align == 0 then own else max_u32 own m.attr_align

-- Where the loop over the members of a struct stands.
pub record Progress : Type 0 where
  pub offset : ℕ
  pub max_align : ℕ
  pub manual : Bool

-- The member's field_offset.
unfoldable pub field_start : Bool → Progress → Member → ℕ
unfolding align_up_u32 field_align
field_start is_packed p m = if is_packed then p.offset else align_up_u32 p.offset (field_align m)

unfoldable pub after_field : Bool → Progress → Member → Progress
unfolding field_start field_align
after_field is_packed p m = record {
  offset = (field_start is_packed p m + m.bytesize) % 2 ^ 32;
  max_align = if is_packed then p.max_align else max_u32 p.max_align (field_align m);
  manual = p.manual || (not is_packed && not (m.attr_align == 0) && ltb m.alignsize m.attr_align);
}

unfoldable pub struct_loop : Bool → List (Option Member) → Progress → List (Member × ℕ) × Progress
unfolding field_start after_field
struct_loop is_packed [] p = ([], p)
struct_loop is_packed (none ∷ ms) p = struct_loop is_packed ms p
struct_loop is_packed (some m ∷ ms) p =
    let (fields, q) = struct_loop is_packed ms (after_field is_packed p m) in
    ((m, field_start is_packed p m) ∷ fields, q)

-- The size and the alignment, behind the loop.
unfoldable pub finish_struct : Bool → List (Member × ℕ) × Progress → Layout
unfolding align_up_u32
finish_struct is_packed (fields, p) =
    let align = if is_packed then 1 else p.max_align in
    record {
      fields = fields;
      bytesize = if is_packed then p.offset else align_up_u32 p.offset align;
      alignsize = align;
      manual_ll_layout = p.manual;
    }

-- TARGET_PTRSIZE, the target's option, is an argument.
module _ (target_ptrsize : ℕ) where
  -- Behind the base type, or behind the pointer of a polymorphic object.
  unfoldable pub start_struct : Bool → Bool → Option (ℕ × ℕ) → Progress
  start_struct is_packed is_polymorphic (some (size, align)) = record {
    offset = size;
    max_align = max_u32 1 align;
    manual = is_packed;
  }
  start_struct is_packed is_polymorphic none =
      if is_polymorphic
      then record {
        offset = target_ptrsize;
        max_align = max_u32 1 target_ptrsize;
        manual = is_packed;
      }
      else record { offset = 0; max_align = 1; manual = is_packed }

  unfoldable pub struct_layout : Compound → Layout
  unfolding start_struct struct_loop finish_struct
  struct_layout c = finish_struct c.is_packed (
      struct_loop c.is_packed c.member_order
        (start_struct c.is_packed c.is_polymorphic c.base_type))

  -- EnsureLayout behind the tests of layout_ready and layout_busy.
  unfoldable pub ensure_layout : Compound → Layout
  unfolding union_layout struct_layout
  ensure_layout c = if c.is_union then union_layout c else struct_layout c

-- layout_busy, layout_ready, and neither.
pub data LayoutState : Type 0 where
  layout_pending : LayoutState
  layout_busy : LayoutState
  layout_ready : Layout → LayoutState

-- The whole of EnsureLayout: `none` is the logic_error of a type that contains itself.
unfoldable pub ensure_layout_in : ℕ → LayoutState → Compound → Option Layout
unfolding ensure_layout
ensure_layout_in ptrsize (layout_ready l) c = some l
ensure_layout_in ptrsize layout_busy c = none
ensure_layout_in ptrsize layout_pending c = some (ensure_layout ptrsize c)
