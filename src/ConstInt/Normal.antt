-- ===== src/ConstInt/Normal.antt =====
-- OTypeInt: NormalizeConstant and ConvertConstant. `& mask` for mask = 2^w - 1 is `% 2 ^ w`, and
-- `| ~mask` adds the bits from w to 63, which are 0 before.
use dq_lang.ConstInt.Words.{word}
use dq_lang.Prelude.{ℕ, ◌+◌, ◌-◌, ◌/◌, ◌%◌, ◌^◌, Bool, ◌&&◌, ◌==◌, leb, if◌then◌else◌}

pub record IntType : Type 0 where
  pub bitlength : ℕ
  pub issigned : Bool

unfoldable pub normalize_constant : IntType → ℕ → ℕ
normalize_constant t rawbits =
    let masked = rawbits % 2 ^ t.bitlength in
    let sign_bit = masked / 2 ^ (t.bitlength - 1) % 2 == 1 in
    if leb 64 t.bitlength
    then rawbits
    else if t.issigned && sign_bit
    then masked + (word - 2 ^ t.bitlength)
    else masked

unfoldable pub convert_constant : IntType → ℕ → ℕ
unfolding normalize_constant
convert_constant t value = normalize_constant t value
