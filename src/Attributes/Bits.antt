-- ===== src/Attributes/Bits.antt =====
-- A word of flags, bit by bit.
use native.Mathlib.Nat.{two-pow-succ}
use dq_lang.Prelude.{
  ℕ, zero, suc, ◌+◌, ◌*◌, ◌/◌, ◌%◌, ◌^◌, ◌<◌, ◌≡◌, refl, Bool, true, false, List, [], ◌∷◌, arith,
  length, get_or, ◌==◌,
}

abbrev bit : Bool → ℕ
bit true = 1
bit false = 0

-- The word with these bits, the lowest first.
unfoldable pub word : List Bool → ℕ
word [] = 0
word (b ∷ bs) = bit b + 2 * word bs

-- n & (1 << k)
unfoldable pub has_bit : ℕ → ℕ → Bool
has_bit zero n = n % 2 == 1
has_bit (suc k) n = has_bit k (n / 2)

has_bit_zero : (k : ℕ) → has_bit k 0 ≡ false
unfolding has_bit
has_bit_zero zero = refl
has_bit_zero (suc k) = has_bit_zero k

-- A bit of the word is the one in its place of the list.
pub has_bit-word : (k : ℕ) (bs : List Bool) → has_bit k (word bs) ≡ get_or bs k false
unfolding has_bit word
has_bit-word k [] = has_bit_zero k
has_bit-word zero (true ∷ bs) = ground arith
has_bit-word zero (false ∷ bs) = ground arith
has_bit-word (suc k) (true ∷ bs) =
    let half : (1 + 2 * word bs) / 2 ≡ word bs = omega arith in rw half (has_bit-word k bs)
has_bit-word (suc k) (false ∷ bs) =
    let half : (0 + 2 * word bs) / 2 ≡ word bs = omega arith in rw half (has_bit-word k bs)

pub word-lt : (bs : List Bool) → word bs < 2 ^ length bs
unfolding word
word-lt [] = omega arith
word-lt (b ∷ bs) = rw (two-pow-succ (length bs)) (ground (arith, word-lt bs))
