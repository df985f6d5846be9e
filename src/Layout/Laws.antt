-- ===== src/Layout/Laws.antt =====
-- The members of a struct lie apart, aligned, and inside the type.
use dq_lang.Prelude.{
  ℕ, ◌+◌, ◌%◌, ◌^◌, ◌≤◌, ◌<◌, ◌≡◌, refl, Bool, false, Option, none, some, List, [], ◌∷◌, arith, ◌-◌,
  map, ◌*◌, ap, sym,
}
use dq_lang.Layout.Align.{align_up_u32, align_up_u32_lem, max_u32}
use dq_lang.Layout.Compound.{
  Member, Progress, field_align, after_field, struct_loop, Compound, start_struct, struct_layout,
  ensure_layout, finish_struct,
}

-- The room that members can take at most, with their padding.
abbrev pub room : List (Option Member) → ℕ
room [] = 0
room (none ∷ ms) = room ms
room (some m ∷ ms) = field_align m + m.bytesize + room ms

-- From one offset to another the fields lie one behind the other, each at a multiple of its
-- alignment, which is at most the given one.
abbrev pub InOrder : ℕ → List (Member × ℕ) → ℕ → ℕ → Type 0
InOrder start [] stop max_align = start ≤ stop
InOrder start ((m, offset) ∷ fields) stop max_align =
    (start ≤ offset)
    × (offset % field_align m ≡ 0)
    × (field_align m ≤ max_align)
    × InOrder (offset + m.bytesize) fields stop max_align

-- The members of a compound, without the null ones.
abbrev pub members : List (Option Member) → List Member
members [] = []
members (none ∷ ms) = members ms
members (some m ∷ ms) = m ∷ members ms

field_align-pos : (m : Member) → 0 < field_align m
unfolding field_align
field_align-pos m = ground arith

InOrder-wider :
    (start stop stop' align align' : ℕ) (fields : List (Member × ℕ))
    → stop ≤ stop'
    → align ≤ align'
    → InOrder start fields stop align
    → InOrder start fields stop' align'
InOrder-wider start stop stop' align align' [] h k o = omega arith
InOrder-wider start stop stop' align align' ((m, offset) ∷ fields) h k (a, b, c, o) =
    (a, b, omega arith, InOrder-wider (offset + m.bytesize) stop stop' align align' fields h k o)

InOrder-from :
    (start start' stop align : ℕ) (fields : List (Member × ℕ))
    → start ≡ start'
    → InOrder start fields stop align
    → InOrder start' fields stop align
InOrder-from start start' stop align fields e o = rw (sym e) o

pub max_u32_lem : (a b : ℕ) → (a ≤ max_u32 a b) × (b ≤ max_u32 a b) × (max_u32 a b ≤ a + b)
max_u32_lem a b = ground arith

start_struct-pos :
    (ptrsize : ℕ) (is_packed is_polymorphic : Bool) (base : Option (ℕ × ℕ))
    → 0 < (start_struct ptrsize is_packed is_polymorphic base).max_align
unfolding start_struct
start_struct-pos ptrsize is_packed is_polymorphic none = ground arith
start_struct-pos ptrsize is_packed is_polymorphic (some (size, align)) = ground arith

struct_loop-InOrder :
    (ms : List (Option Member)) (p : Progress)
    → p.offset + room ms ≤ 2 ^ 32 - 1
    → let (fields, q) = struct_loop false ms p in
      InOrder p.offset fields q.offset q.max_align
      × (map (λ (f : Member × ℕ). f.0) fields ≡ members ms)
      × (p.max_align ≤ q.max_align)
      × (q.offset ≤ p.offset + room ms)
      × (q.max_align ≤ p.max_align + room ms)
unfolding struct_loop
struct_loop-InOrder [] p h = (omega arith, refl, omega arith, omega arith, omega arith)
struct_loop-InOrder (none ∷ ms) p h = struct_loop-InOrder ms p h
struct_loop-InOrder (some m ∷ ms) p h =
    let p' = after_field false p m in
    let pos = field_align-pos m in
    let (above, near, aligned) = align_up_u32_lem p.offset (field_align m) pos (omega arith) in
    let offset : p'.offset ≡ align_up_u32 p.offset (field_align m) + m.bytesize = omega arith in
    let (kept, own, grown) = max_u32_lem p.max_align (field_align m) in
    let (o, same, wider, far, far') = struct_loop-InOrder ms p' (omega arith) in
    (
      (above, aligned, omega arith, InOrder-from _ _ _ _ _ offset o),
      ap (◌∷◌ m) same,
      omega arith,
      omega arith,
      omega arith,
    )

-- The offset and the alignment before the members, and the room of these.
abbrev pub Small : Progress → List (Option Member) → Type 0
Small p ms = p.offset + p.max_align + 2 * room ms < 2 ^ 32

-- A struct or object that is not packed: its members stand in their order behind the base type or the
-- type pointer, none overlaps another, each lies at a multiple of its alignment and inside the type,
-- whose size is a multiple of its alignment, which is at least that of each member, if all this is
-- below 2^32.
pub ensure_layout-InOrder :
    (ptrsize : ℕ) (c : Compound)
    → c.is_union ≡ false
    → c.is_packed ≡ false
    → Small (start_struct ptrsize false c.is_polymorphic c.base_type) c.member_order
    → let l = ensure_layout ptrsize c in
      InOrder
        (start_struct ptrsize false c.is_polymorphic c.base_type).offset
        l.fields
        l.bytesize
        l.alignsize
      × (map (λ (f : Member × ℕ). f.0) l.fields ≡ members c.member_order)
      × (l.bytesize % l.alignsize ≡ 0)
unfolding ensure_layout struct_layout finish_struct
ensure_layout-InOrder ptrsize c no_union loose small =
    let p = start_struct ptrsize false c.is_polymorphic c.base_type in
    let loop = struct_loop false c.member_order p in
    let q = loop.1 in
    let (o, same, wider, far, far') = struct_loop-InOrder c.member_order p (omega arith) in
    let pos = start_struct-pos ptrsize false c.is_polymorphic c.base_type in
    let (above, near, aligned) =
      align_up_u32_lem q.offset q.max_align (omega arith) (omega arith) in
    let whole : ensure_layout ptrsize c ≡ finish_struct false loop = rw (no_union, loose) in
    rw whole (InOrder-wider _ _ _ _ _ loop.0 above (omega arith) o, same, aligned)
