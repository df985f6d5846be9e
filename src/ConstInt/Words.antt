-- ===== src/ConstInt/Words.antt =====
-- int64_t and uint64_t as bit patterns below 2^64, with the operations that C++ has on them. A shift
-- by 64 or more, a division by zero and the overflow of a division are undefined there: `trap`.
use dq_lang.Prelude.{
  ℕ, ◌+◌, ◌-◌, ◌*◌, ◌/◌, ◌%◌, ◌^◌, Bool, true, false, not, ◌&&◌, ◌||◌, ◌==◌, leb, if◌then◌else◌,
}

abbrev pub word : ℕ
word = 2 ^ 64

abbrev pub half : ℕ
half = 2 ^ 63

-- The sign of an int64_t, and its distance from 0.
abbrev pub is_negative : ℕ → Bool
is_negative v = leb half v

abbrev pub magnitude : ℕ → ℕ
magnitude v = if is_negative v then word - v else v

unfoldable pub add64 : ℕ → ℕ → ℕ
add64 a b = (a + b) % word

unfoldable pub sub64 : ℕ → ℕ → ℕ
sub64 a b = (a + (word - b)) % word

unfoldable pub mul64 : ℕ → ℕ → ℕ
mul64 a b = a * b % word

unfoldable pub neg64 : ℕ → ℕ
neg64 a = (word - a) % word

-- ~v
unfoldable pub not64 : ℕ → ℕ
not64 a = word - 1 - a

-- The value with the given sign and magnitude.
abbrev pub with_sign : Bool → ℕ → ℕ
with_sign negative m = if negative then (word - m) % word else m

-- Division of an undefined case gives `trap`.
pub data Computed : Type 0 where
  value : ℕ → Computed
  trap : Computed

abbrev differ : Bool → Bool → Bool
differ true b = not b
differ false b = b

-- INT64_MIN / -1
abbrev pub quotient_overflows : ℕ → ℕ → Bool
quotient_overflows a b = a == half && b == word - 1

unfoldable pub signed_div : ℕ → ℕ → Computed
signed_div a b =
    if b == 0 || quotient_overflows a b
    then trap
    else value (with_sign (differ (is_negative a) (is_negative b)) (magnitude a / magnitude b))

unfoldable pub signed_rem : ℕ → ℕ → Computed
signed_rem a b =
    if b == 0 || quotient_overflows a b
    then trap
    else value (with_sign (is_negative a) (magnitude a % magnitude b))

unfoldable pub unsigned_div : ℕ → ℕ → Computed
unsigned_div a b = if b == 0 then trap else value (a / b)

unfoldable pub unsigned_rem : ℕ → ℕ → Computed
unsigned_rem a b = if b == 0 then trap else value (a % b)

unfoldable pub shift_left : ℕ → ℕ → Computed
shift_left a n = if leb 64 n then trap else value (a * 2 ^ n % word)

-- `>>` on an int64_t keeps the sign.
unfoldable pub shift_right : ℕ → ℕ → Computed
shift_right a n =
    if leb 64 n
    then trap
    else value (if is_negative a then word - 1 - (word - 1 - a) / 2 ^ n else a / 2 ^ n)
