-- ===== src/Layout/Packed.antt =====
-- The layout of packed structs and of unions.
use native.Mathlib.Nat.{mod-eq_of_lt}
use dq_lang.Prelude.{
  ℕ, ◌+◌, ◌%◌, ◌^◌, ◌≤◌, ◌<◌, ◌≡◌, ◌∙◌, ap, refl, true, false, Option, none, some, List, [], ◌∷◌,
  arith, All, map, sym,
}
use dq_lang.Layout.Align.{max_u32, effective_storage_align, align_up_u32_lem}
use dq_lang.Layout.Compound.{
  Member, Compound, Progress, union_loop, union_layout, field_start, after_field, struct_loop,
  finish_struct, start_struct, struct_layout, ensure_layout,
}
use dq_lang.Layout.Laws.{members, max_u32_lem}

-- What the members take without padding.
abbrev pub total : List (Option Member) → ℕ
total [] = 0
total (none ∷ ms) = total ms
total (some m ∷ ms) = m.bytesize + total ms

-- Each field starts where the one before it ends.
abbrev pub Contiguous : ℕ → List (Member × ℕ) → ℕ → Type 0
Contiguous start [] stop = start ≡ stop
Contiguous start ((m, offset) ∷ fields) stop =
    (offset ≡ start) × Contiguous (start + m.bytesize) fields stop

packed_end :
    (ms : List (Option Member)) (p : Progress)
    → p.offset < 2 ^ 32
    → (struct_loop true ms p).1.offset ≡ (p.offset + total ms) % 2 ^ 32
unfolding struct_loop after_field field_start
packed_end [] p h = omega arith
packed_end (none ∷ ms) p h = packed_end ms p h
packed_end (some m ∷ ms) p h =
    let later = packed_end ms (after_field true p m) (omega arith) in omega (arith, later)

Contiguous-at :
    (start start' stop stop' : ℕ) (fields : List (Member × ℕ))
    → start ≡ start'
    → stop ≡ stop'
    → Contiguous start fields stop
    → Contiguous start' fields stop'
Contiguous-at start start' stop stop' fields e e' c = rw (sym e, sym e') c

packed-Contiguous :
    (ms : List (Option Member)) (p : Progress)
    → p.offset + total ms < 2 ^ 32
    → Contiguous p.offset (struct_loop true ms p).0 (p.offset + total ms)
unfolding struct_loop after_field field_start
packed-Contiguous [] p h = omega arith
packed-Contiguous (none ∷ ms) p h = packed-Contiguous ms p h
packed-Contiguous (some m ∷ ms) p h =
    let uncut : (p.offset + m.bytesize) % 2 ^ 32 ≡ p.offset + m.bytesize = omega arith in
    let p' = after_field true p m in
    let ends : p'.offset + total ms ≡ p.offset + (m.bytesize + total ms) = omega arith in
    let later = packed-Contiguous ms p' (omega arith) in
    (refl, Contiguous-at p'.offset _ _ _ (struct_loop true ms p').0 uncut ends later)

-- A packed struct or object has the alignment 1 and the size of its base, or of the type pointer, and
-- its members together, cut to 32 bits; if this is not cut, the members follow each other without gaps
-- up to the end.
pub ensure_layout-Contiguous :
    (ptrsize : ℕ) (c : Compound)
    → c.is_union ≡ false
    → c.is_packed ≡ true
    → (start_struct ptrsize true c.is_polymorphic c.base_type).offset + total c.member_order
      < 2 ^ 32
    → let l = ensure_layout ptrsize c in
      let start = (start_struct ptrsize true c.is_polymorphic c.base_type).offset in
      (l.alignsize ≡ 1)
      × (l.bytesize ≡ start + total c.member_order)
      × Contiguous start l.fields l.bytesize
unfolding ensure_layout struct_layout finish_struct
ensure_layout-Contiguous ptrsize c no_union packed small =
    let p = start_struct ptrsize true c.is_polymorphic c.base_type in
    let loop = struct_loop true c.member_order p in
    let size : loop.1.offset ≡ p.offset + total c.member_order =
      packed_end c.member_order p (omega arith) ∙ mod-eq_of_lt small in
    let whole : ensure_layout ptrsize c ≡ finish_struct true loop = rw (no_union, packed) in
    rw whole (refl, size, rw size (packed-Contiguous c.member_order p small))

-- The size of a packed struct or object is cut to 32 bits without an error.
pub ensure_layout_wraps :
    (ptrsize : ℕ) (c : Compound)
    → c.is_union ≡ false
    → c.is_packed ≡ true
    → (start_struct ptrsize true c.is_polymorphic c.base_type).offset < 2 ^ 32
    → (ensure_layout ptrsize c).bytesize
      ≡ ((start_struct ptrsize true c.is_polymorphic c.base_type).offset + total c.member_order)
        % 2 ^ 32
unfolding ensure_layout struct_layout finish_struct
ensure_layout_wraps ptrsize c no_union packed small =
    let p = start_struct ptrsize true c.is_polymorphic c.base_type in
    let whole : ensure_layout ptrsize c ≡ finish_struct true (struct_loop true c.member_order p) =
      rw (no_union, packed) in
    rw whole (packed_end c.member_order p small)

abbrev pub Moderate : Member → Type 0
Moderate m = (m.bytesize < 2 ^ 31) × (effective_storage_align m.alignsize m.attr_align < 2 ^ 31)

-- Each field is at 0 and fits in the size and the alignment.
abbrev pub Overlaid : List (Member × ℕ) → ℕ → ℕ → Type 0
Overlaid [] size align = Unit
Overlaid ((m, offset) ∷ fields) size align =
    (offset ≡ 0)
    × (m.bytesize ≤ size)
    × (effective_storage_align m.alignsize m.attr_align ≤ align)
    × Overlaid fields size align

Overlaid-wider :
    (fields : List (Member × ℕ)) (size size' align : ℕ)
    → size ≤ size'
    → Overlaid fields size align
    → Overlaid fields size' align
Overlaid-wider [] size size' align h o = tt
Overlaid-wider ((m, offset) ∷ fields) size size' align h (a, b, c, o) =
    (a, omega arith, c, Overlaid-wider fields size size' align h o)

union_loop-Overlaid :
    (ms : List (Option Member)) (max_size max_align : ℕ)
    → max_size < 2 ^ 31
    → max_align < 2 ^ 31
    → All Moderate (members ms)
    → let (fields, size, align) = union_loop ms max_size max_align in
      Overlaid fields size align
      × (map (λ (f : Member × ℕ). f.0) fields ≡ members ms)
      × (max_size ≤ size)
      × (max_align ≤ align)
      × (size < 2 ^ 31)
      × (align < 2 ^ 31)
unfolding union_loop
union_loop-Overlaid [] s a hs ha h = (tt, refl, omega arith, omega arith, hs, ha)
union_loop-Overlaid (none ∷ ms) s a hs ha h = union_loop-Overlaid ms s a hs ha h
union_loop-Overlaid (some m ∷ ms) s a hs ha ((size_fits, align_fits), h) =
    let own = effective_storage_align m.alignsize m.attr_align in
    let s' : max_u32 s m.bytesize < 2 ^ 31 = ground arith in
    let a' : max_u32 a own < 2 ^ 31 = ground arith in
    let (kept, fits, _) = max_u32_lem s m.bytesize in
    let (kept', fits', _) = max_u32_lem a own in
    let (o, same, size_up, align_up, size_small, align_small) =
      union_loop-Overlaid ms (max_u32 s m.bytesize) (max_u32 a own) s' a' h in
    (
      (refl, omega arith, omega arith, o),
      ap (◌∷◌ m) same,
      omega arith,
      omega arith,
      size_small,
      align_small,
    )

-- A union whose members have sizes and alignments below 2^31: every member lies at 0, the union is as
-- large and as aligned as each of them, and its size is a multiple of its alignment.
pub ensure_layout-Overlaid :
    (ptrsize : ℕ) (c : Compound)
    → c.is_union ≡ true
    → All Moderate (members c.member_order)
    → let l = ensure_layout ptrsize c in
      Overlaid l.fields l.bytesize l.alignsize
      × (map (λ (f : Member × ℕ). f.0) l.fields ≡ members c.member_order)
      × (l.bytesize % l.alignsize ≡ 0)
unfolding ensure_layout union_layout
ensure_layout-Overlaid ptrsize c union h =
    let (fields, size, align) = union_loop c.member_order 0 1 in
    let (o, same, size_up, align_up, size_small, align_small) =
      union_loop-Overlaid c.member_order 0 1 (omega arith) (omega arith) h in
    let (above, near, aligned) = align_up_u32_lem size align (omega arith) (omega arith) in
    rw union (Overlaid-wider fields size _ align above o, same, aligned)
