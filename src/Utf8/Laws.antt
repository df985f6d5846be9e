-- ===== src/Utf8/Laws.antt =====
-- The texts that the decoder accepts are the shortest encodings of the scalar values.
use dq_lang.Prelude.{
  ℕ, ◌+◌, ◌*◌, ◌/◌, ◌%◌, ◌<◌, ◌≡◌, ◌↔◌, ◌⊎◌, refl, none, some, [], ◌∷◌, Bytes, IsByte, All, arith,
  ltb, if◌then◌else◌, ◌≤◌, inr, le→ltb, ap, ◌≢◌, Option, length,
}
use dq_lang.Utf8.Decode.{
  is_valid_wchar_value, two_bytes, three_bytes, four_bytes, first_scalar, accept,
  decode_single_utf8_scalar,
}

-- UTF-8, as its standard defines it.
abbrev pub encode : ℕ → Bytes
encode v =
    if ltb v 0x80
    then v ∷ []
    else if ltb v 0x800
    then (192 + v / 64) ∷ (128 + v % 64) ∷ []
    else if ltb v 0x10000
    then (224 + v / 4096) ∷ (128 + v / 64 % 64) ∷ (128 + v % 64) ∷ []
    else (240 + v / 262144) ∷ (128 + v / 4096 % 64) ∷ (128 + v / 64 % 64) ∷ (128 + v % 64) ∷ []

-- A scalar value: not above U+10FFFF, and no surrogate.
abbrev pub IsScalar : ℕ → Type 0
IsScalar v = (v < 0xD800) ⊎ ((0xDFFF < v) × (v < 0x110000))

-- Every scalar value is decoded from its encoding.
pub decode_single_utf8_scalar-encode :
    (v : ℕ) → IsScalar v → decode_single_utf8_scalar (encode v) ≡ some v
unfolding decode_single_utf8_scalar first_scalar two_bytes three_bytes four_bytes accept
    is_valid_wchar_value
decode_single_utf8_scalar-encode v s = ground arith

-- What four bytes that are decoded satisfy.
four_conditions :
    (a b c d v : ℕ)
    → decode_single_utf8_scalar (a ∷ b ∷ c ∷ d ∷ []) ≡ some v
    → (240 ≤ a)
      × (a ≤ 244)
      × (b / 64 ≡ 2)
      × (c / 64 ≡ 2)
      × (d / 64 ≡ 2)
      × (v ≡ a % 8 * 262144 + b % 64 * 4096 + c % 64 * 64 + d % 64)
      × (65536 ≤ v)
      × (v < 0x110000)
unfolding decode_single_utf8_scalar first_scalar two_bytes three_bytes four_bytes accept
    is_valid_wchar_value
four_conditions a b c d v e = ground arith

decoded_four :
    (a b c d v : ℕ)
    → decode_single_utf8_scalar (a ∷ b ∷ c ∷ d ∷ []) ≡ some v
    → IsScalar v × ((a ∷ b ∷ c ∷ d ∷ []) ≡ encode v)
decoded_four a b c d v e =
    let (low, high, two_b, two_c, two_d, value, large, small) = four_conditions a b c d v e in
    let a_back : 240 + v / 262144 ≡ a = omega arith in
    let b_back : 128 + v / 4096 % 64 ≡ b = omega arith in
    let c_back : 128 + v / 64 % 64 ≡ c = omega arith in
    let d_back : 128 + v % 64 ≡ d = omega arith in
    (
      inr (omega arith, small),
      rw
          (
            le→ltb v 0x80 (omega arith),
            le→ltb v 0x800 (omega arith),
            le→ltb v 0x10000 large,
            a_back,
            b_back,
            c_back,
            d_back,
          )
          refl,
    )

accepted_length :
    (size : ℕ) (o : Option (ℕ × ℕ)) (v : ℕ)
    → accept size o ≡ some v
    → (code : ℕ) × (o ≡ some (code, size))
unfolding accept
accepted_length size none v e = absurd (ground arith)
accepted_length size (some (code, len)) v e =
    let same : len ≡ size = ground arith in (code, ap (λ (n : ℕ). some (code, n)) same)

two_length : (a : ℕ) (r : Bytes) (code len : ℕ) → two_bytes a r ≡ some (code, len) → len ≡ 2
unfolding two_bytes
two_length a [] code len e = ground arith
two_length a (b ∷ r) code len e = ground arith

three_length :
    (a b c : ℕ) (r : Bytes) (code len : ℕ) → three_bytes a (b ∷ c ∷ r) ≡ some (code, len) → len ≡ 3
unfolding three_bytes
three_length a b c r code len e = ground arith

four_length :
    (a b c d : ℕ) (r : Bytes) (code len : ℕ)
    → four_bytes a (b ∷ c ∷ d ∷ r) ≡ some (code, len)
    → len ≡ 4
unfolding four_bytes
four_length a b c d r code len e = ground arith

first_length :
    (a b c d : ℕ) (r : Bytes) (code len : ℕ)
    → first_scalar a (b ∷ c ∷ d ∷ r) ≡ some (code, len)
    → len ≤ 4
unfolding first_scalar
first_length a b c d r code len e = ground (
  arith,
  two_length a (b ∷ c ∷ d ∷ r) code len,
  three_length a b c (d ∷ r) code len,
  four_length a b c d r code len,
)

decoded_long :
    (a b c d x : ℕ) (rest : Bytes) (v : ℕ)
    → decode_single_utf8_scalar (a ∷ b ∷ c ∷ d ∷ x ∷ rest) ≢ some v
unfolding decode_single_utf8_scalar
decoded_long a b c d x rest v e =
    let (code, taken) =
      accepted_length (length (a ∷ b ∷ c ∷ d ∷ x ∷ rest)) (first_scalar a (b ∷ c ∷ d ∷ x ∷ rest)) v
        e in
    let short = first_length a b c d (x ∷ rest) code _ taken in omega (arith, short)

-- A text of bytes that is decoded is the encoding of the result, which is a scalar value.
decoded :
    (d : Bytes) (v : ℕ)
    → All IsByte d
    → decode_single_utf8_scalar d ≡ some v
    → IsScalar v × (d ≡ encode v)
unfolding decode_single_utf8_scalar first_scalar two_bytes three_bytes four_bytes accept
    is_valid_wchar_value
decoded [] v h e = ground arith
decoded (a ∷ []) v (ha, _) e = ground arith
decoded (a ∷ b ∷ []) v (ha, (hb, _)) e = ground arith
decoded (a ∷ b ∷ c ∷ []) v (ha, (hb, (hc, _))) e = ground arith
decoded (a ∷ b ∷ c ∷ d ∷ []) v (ha, (hb, (hc, (hd, _)))) e = decoded_four a b c d v e
decoded (a ∷ b ∷ c ∷ d ∷ x ∷ rest) v h e = absurd (decoded_long a b c d x rest v e)

-- DecodeSingleUtf8Scalar accepts a text of bytes with a value exactly if the value is a scalar value
-- and the text its encoding in UTF-8: longer encodings, surrogates and values above U+10FFFF are
-- refused.
pub decode_single_utf8_scalar_iff :
    (d : Bytes) (v : ℕ)
    → All IsByte d
    → (decode_single_utf8_scalar d ≡ some v) ↔ (IsScalar v × (d ≡ encode v))
decode_single_utf8_scalar_iff d v h =
    (decoded d v h, λ (s, e). rw e (decode_single_utf8_scalar-encode v s))
