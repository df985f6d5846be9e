-- ===== src/Utf8/Decode.antt =====
-- DecodeSingleUtf8Scalar and IsValidWCharValue.
use dq_lang.Prelude.{
  ℕ, ◌+◌, ◌*◌, ◌/◌, ◌%◌, Bool, not, ◌&&◌, ◌||◌, Option, none, some, [], ◌∷◌, Bytes, length, leb,
  ltb, ◌==◌, if◌then◌else◌,
}

-- A code is never negative here.
unfoldable pub is_valid_wchar_value : ℕ → Bool
is_valid_wchar_value value = leb value 1114111 && not (leb 55296 value && leb value 57343)

-- (b & 0xC0) != 0x80 fails; for a byte the two bits are its quotient by 64.
abbrev pub continues : ℕ → Bool
continues b = b / 64 == 2

-- The branches on the first byte, each with the bytes that it asks for: the code and the length. A
-- mask of low bits is a remainder, and `|` of disjoint bits a sum.
unfoldable pub two_bytes : ℕ → Bytes → Option (ℕ × ℕ)
two_bytes b0 (b1 ∷ _) = if not (continues b1) then none else some (b0 % 32 * 64 + b1 % 64, 2)
two_bytes b0 _ = none

unfoldable pub three_bytes : ℕ → Bytes → Option (ℕ × ℕ)
three_bytes b0 (b1 ∷ b2 ∷ _) =
    let code = b0 % 16 * 4096 + b1 % 64 * 64 + b2 % 64 in
    if not (continues b1) || not (continues b2)
    then none
    else if ltb code 2048
    then none
    else some (code, 3)
three_bytes b0 _ = none

unfoldable pub four_bytes : ℕ → Bytes → Option (ℕ × ℕ)
four_bytes b0 (b1 ∷ b2 ∷ b3 ∷ _) =
    let code = b0 % 8 * 262144 + b1 % 64 * 4096 + b2 % 64 * 64 + b3 % 64 in
    if not (continues b1) || not (continues b2) || not (continues b3)
    then none
    else if ltb code 65536
    then none
    else some (code, 4)
four_bytes b0 _ = none

unfoldable pub first_scalar : ℕ → Bytes → Option (ℕ × ℕ)
unfolding two_bytes three_bytes four_bytes
first_scalar b0 rest =
    if leb b0 127
    then some (b0, 1)
    else if leb 194 b0 && leb b0 223
    then two_bytes b0 rest
    else if leb 224 b0 && leb b0 239
    then three_bytes b0 rest
    else if leb 240 b0 && leb b0 244
    then four_bytes b0 rest
    else none

unfoldable pub accept : ℕ → Option (ℕ × ℕ) → Option ℕ
unfolding is_valid_wchar_value
accept size none = none
accept size (some (code, len)) =
    if not (len == size) || not (is_valid_wchar_value code) then none else some code

unfoldable pub decode_single_utf8_scalar : Bytes → Option ℕ
unfolding first_scalar accept
decode_single_utf8_scalar [] = none
decode_single_utf8_scalar (b0 ∷ rest) = accept (length (b0 ∷ rest)) (first_scalar b0 rest)
