-- ===== src/DqmIf/Bytes.antt =====
-- Little-endian fields and the checksum: AddU8 to AddU64 of ODqmIfWriter, DqmIfReadU16At to
-- DqmIfReadU64At, Checksum. `|` of bytes that are shifted apart is written as a sum.
use dq_lang.Prelude.{
  ℕ, ◌+◌, ◌*◌, ◌/◌, ◌%◌, ◌^◌, ◌<◌, ◌≡◌, sym, ◌∙◌, ap, [], ◌∷◌, ◌++◌, append_assoc, arith, Bytes,
  length, length-append, get_or, get_or-append,
}

-- uint8_t(v)
abbrev pub u8 : ℕ → ℕ
u8 v = v % 2 ^ 8

unfoldable pub add_u8 : Bytes → ℕ → Bytes
add_u8 dst v = dst ++ u8 v ∷ []

unfoldable pub add_u16 : Bytes → ℕ → Bytes
unfolding add_u8
add_u16 dst v = add_u8 (add_u8 dst v) (v / 2 ^ 8)

unfoldable pub add_u32 : Bytes → ℕ → Bytes
unfolding add_u8
add_u32 dst v = add_u8 (add_u8 (add_u8 (add_u8 dst v) (v / 2 ^ 8)) (v / 2 ^ 16)) (v / 2 ^ 24)

unfoldable pub add_u64 : Bytes → ℕ → Bytes
unfolding add_u32
add_u64 dst v = add_u32 (add_u32 dst (v % 2 ^ 32)) (v / 2 ^ 32 % 2 ^ 32)

unfoldable pub read_u16_at : Bytes → ℕ → ℕ
read_u16_at d pos = get_or d pos 0 + get_or d (pos + 1) 0 * 2 ^ 8

unfoldable pub read_u32_at : Bytes → ℕ → ℕ
read_u32_at d pos =
    get_or d pos 0
    + get_or d (pos + 1) 0 * 2 ^ 8
    + get_or d (pos + 2) 0 * 2 ^ 16
    + get_or d (pos + 3) 0 * 2 ^ 24

unfoldable pub read_u64_at : Bytes → ℕ → ℕ
read_u64_at d pos = read_u32_at d pos + read_u32_at d (pos + 4) * 2 ^ 32

-- `result += b` in a uint64_t.
unfoldable pub checksum_from : ℕ → Bytes → ℕ
checksum_from acc [] = acc
checksum_from acc (b ∷ d) = checksum_from ((acc + b) % 2 ^ 64) d

unfoldable pub checksum : Bytes → ℕ
unfolding checksum_from
checksum d = checksum_from 0 d

-- The bytes that each field adds.
abbrev pub le16 : ℕ → Bytes
le16 v = u8 v ∷ u8 (v / 2 ^ 8) ∷ []

abbrev pub le32 : ℕ → Bytes
le32 v = u8 v ∷ u8 (v / 2 ^ 8) ∷ u8 (v / 2 ^ 16) ∷ u8 (v / 2 ^ 24) ∷ []

abbrev pub le64 : ℕ → Bytes
le64 v = le32 (v % 2 ^ 32) ++ le32 (v / 2 ^ 32 % 2 ^ 32)

pub add_u16-append : (dst : Bytes) (v : ℕ) → add_u16 dst v ≡ dst ++ le16 v
unfolding add_u16
add_u16-append dst v = simp append_assoc

pub add_u32-append : (dst : Bytes) (v : ℕ) → add_u32 dst v ≡ dst ++ le32 v
unfolding add_u32
add_u32-append dst v = simp append_assoc

pub add_u64-append : (dst : Bytes) (v : ℕ) → add_u64 dst v ≡ dst ++ le64 v
unfolding add_u64
add_u64-append dst v = simp append_assoc

-- The element `i` places behind a prefix whose length is known.
pub get_or_at :
    (xs ys : Bytes) (p i : ℕ) → p ≡ length xs + i → get_or (xs ++ ys) p 0 ≡ get_or ys i 0
get_or_at xs ys p i e = rw e (get_or-append xs ys i 0)

module _ (xs rest : Bytes) (p v : ℕ) (at : p ≡ length xs) where
  pub read_u16_at-le16 : v < 2 ^ 16 → read_u16_at (xs ++ (le16 v ++ rest)) p ≡ v
  unfolding read_u16_at
  read_u16_at-le16 h =
      rw
        (
          get_or_at xs (le16 v ++ rest) p 0 (omega arith),
          get_or_at xs (le16 v ++ rest) (p + 1) 1 (omega arith),
        )
        (omega arith)

  pub read_u32_at-le32 : v < 2 ^ 32 → read_u32_at (xs ++ (le32 v ++ rest)) p ≡ v
  unfolding read_u32_at
  read_u32_at-le32 h =
      rw
        (
          get_or_at xs (le32 v ++ rest) p 0 (omega arith),
          get_or_at xs (le32 v ++ rest) (p + 1) 1 (omega arith),
          get_or_at xs (le32 v ++ rest) (p + 2) 2 (omega arith),
          get_or_at xs (le32 v ++ rest) (p + 3) 3 (omega arith),
        )
        (omega arith)

-- A field written in eight bytes is read back.
pub read_u64_at-le64 :
    (xs rest : Bytes) (p v : ℕ)
    → p ≡ length xs
    → v < 2 ^ 64
    → read_u64_at (xs ++ (le64 v ++ rest)) p ≡ v
unfolding read_u64_at
read_u64_at-le64 xs rest p v at h =
    let lo = v % 2 ^ 32 in
    let hi = v / 2 ^ 32 % 2 ^ 32 in
    let first : read_u32_at (xs ++ (le64 v ++ rest)) p ≡ lo =
      read_u32_at-le32 xs (le32 hi ++ rest) p lo at (omega arith) in
    let second : read_u32_at (xs ++ (le64 v ++ rest)) (p + 4) ≡ hi =
      ap (λ d. read_u32_at d (p + 4)) (sym (append_assoc xs (le32 lo) (le32 hi ++ rest)))
      ∙ read_u32_at-le32 (xs ++ le32 lo) rest (p + 4) hi
          (omega (arith, length-append {0} xs (le32 lo))) (omega arith) in
    omega arith
