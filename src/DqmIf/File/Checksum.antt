-- ===== src/DqmIf/File/Checksum.antt =====
-- The checksum is the sum of the bytes modulo 2^64.
use dq_lang.DqmIf.Bytes.{checksum, checksum_from}
use dq_lang.Prelude.{ℕ, ◌+◌, ◌%◌, ◌^◌, ◌<◌, ◌≡◌, ◌≢◌, [], ◌∷◌, ◌++◌, arith, Bytes}

abbrev pub sum : Bytes → ℕ
sum [] = 0
sum (b ∷ d) = b + sum d

pub sum-append : (xs ys : Bytes) → sum (xs ++ ys) ≡ sum xs + sum ys
sum-append [] ys = omega arith
sum-append (x ∷ xs) ys = omega (arith, sum-append xs ys)

checksum_from-sum :
    (acc : ℕ) (d : Bytes) → acc < 2 ^ 64 → checksum_from acc d ≡ (acc + sum d) % 2 ^ 64
unfolding checksum_from
checksum_from-sum acc [] h = omega arith
checksum_from-sum acc (b ∷ d) h =
    omega (arith, checksum_from-sum ((acc + b) % 2 ^ 64) d (omega arith))

pub checksum-sum : (d : Bytes) → checksum d ≡ sum d % 2 ^ 64
unfolding checksum
checksum-sum d = omega (arith, checksum_from-sum 0 d (omega arith))

pub checksum-lt : (d : Bytes) → checksum d < 2 ^ 64
checksum-lt d = omega (arith, checksum-sum d)

-- One changed byte changes the checksum.
pub checksum_changed :
    (xs ys : Bytes) (a b : ℕ)
    → a < 256
    → b < 256
    → a ≢ b
    → checksum (xs ++ a ∷ ys) ≢ checksum (xs ++ b ∷ ys)
checksum_changed xs ys a b ha hb ne e = ne (
    omega (
      arith,
      e,
      checksum-sum (xs ++ a ∷ ys),
      checksum-sum (xs ++ b ∷ ys),
      sum-append xs (a ∷ ys),
      sum-append xs (b ∷ ys),
    ))
