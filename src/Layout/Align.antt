-- ===== src/Layout/Align.antt =====
-- AlignUpU32 and EffectiveStorageAlign.
use native.Mathlib.Nat.{div-add-mod', mod-lt, mod-one, mod-eq_of_lt, mul-mod_left}
use dq_lang.Prelude.{
  ℕ, ◌+◌, ◌-◌, ◌*◌, ◌/◌, ◌%◌, ◌^◌, ◌≤◌, ◌<◌, ◌≡◌, arith, leb, ltb, if◌then◌else◌, ap, ◌∙◌, inl, inr,
  Bool-cases,
}

-- The sum is a uint64_t, which two numbers below 2^32 do not exceed; the result is cut to 32 bits.
unfoldable pub align_up_u32 : ℕ → ℕ → ℕ
align_up_u32 value align =
    if leb align 1 then value else (value + align - 1) / align * align % 2 ^ 32

abbrev pub max_u32 : ℕ → ℕ → ℕ
max_u32 a b = if ltb a b then b else a

-- The type's own alignment after EnsureLayout, and the attribute's.
unfoldable pub effective_storage_align : ℕ → ℕ → ℕ
effective_storage_align alignsize attr_align = max_u32 (max_u32 1 alignsize) attr_align

-- Below the top of the range AlignUpU32 gives the next multiple.
pub align_up_u32_lem :
    (value align : ℕ)
    → 0 < align
    → value + align ≤ 2 ^ 32
    → let up = align_up_u32 value align in (value ≤ up) × (up < value + align) × (up % align ≡ 0)
unfolding align_up_u32
align_up_u32_lem value align pos small = elim (Bool-cases (leb align 1)) [
  | inl e ↦
      let one : align ≡ 1 = ground arith in
      let whole : value % align ≡ 0 = ap (λ a. value % a) one ∙ mod-one value in
      rw e (omega arith, omega arith, whole)
  | inr e ↦
      let t = value + align - 1 in
      let split = div-add-mod' t align in
      let lt = mod-lt t pos in
      let uncut : t / align * align % 2 ^ 32 ≡ t / align * align = mod-eq_of_lt (omega arith) in
      rw (e, uncut) (omega arith, omega arith, mul-mod_left (t / align) align)
]
