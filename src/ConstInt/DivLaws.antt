-- ===== src/ConstInt/DivLaws.antt =====
-- `mod` and `>>` of constant expressions against arithmetic on whole numbers.
use Prim.Native.Nat.{zero, suc}
use native.Mathlib.Nat.{
  div-add-mod, mod-lt, div-le_self, two-pow-succ, one-le-pow, mul-le-mul_right,
}
use dq_lang.ConstInt.Fold.{binop_imod, binop_ishr, done, fold_bin, computed, adjust, ◌>>=◌}
use dq_lang.ConstInt.Words.{
  word, half, is_negative, magnitude, shift_right, signed_rem, value, add64, with_sign,
}
use dq_lang.Prelude.{
  ℕ, ◌+◌, ◌-◌, ◌*◌, ◌/◌, ◌%◌, ◌^◌, ◌≤◌, ◌<◌, ◌≡◌, ◌≢◌, ◌↔◌, ◌⊎◌, inl, inr, leb, Bool-cases, ◌∙◌,
  refl, sym, ap, Bool, true, false, not, arith, ◌==◌, if◌then◌else◌,
}

-- That m * q and r are a quotient and a remainder of the number with the given sign and magnitude x.
abbrev Divides : Bool → ℕ → ℕ → ℕ → ℕ → Type 0
Divides true m q x r = x + r ≡ m * q
Divides false m q x r = m * q + r ≡ x

-- r is the remainder of the int64_t a by the int64_t b in the Euclidean sense: it lies between 0 and
-- the magnitude of b, and a - r is q times that magnitude, up to the sign.
abbrev pub IsEuclidean : ℕ → ℕ → ℕ → ℕ → Type 0
IsEuclidean a b q r = (r < magnitude b) × Divides (is_negative a) (magnitude b) q (magnitude a) r

-- The remainder and the quotient for a sign, with those of the magnitudes.
abbrev remainder_of : Bool → ℕ → ℕ → ℕ
remainder_of negative m r = if negative then (if r == 0 then 0 else m - r) else r

abbrev quotient_of : Bool → ℕ → ℕ → ℕ
quotient_of negative q r = if negative then (if not (r == 0) then q + 1 else q) else q

defined-signed_rem :
    (a b : ℕ)
    → b ≢ 0
    → ¬ ((a ≡ half) × (b ≡ word - 1))
    → signed_rem a b ≡ value (with_sign (is_negative a) (magnitude a % magnitude b))
unfolding signed_rem
defined-signed_rem a b nonzero fits = ground arith

adjusted :
    (a b x : ℕ)
    → a < word
    → b < word
    → x < magnitude b
    → adjust b (with_sign (is_negative a) x) ≡ remainder_of (is_negative a) (magnitude b) x
unfolding add64
adjusted a b x ha hb hx = ground arith

next_multiple : (m q r x : ℕ) → m * q + r ≡ x → r < m → x + (m - r) ≡ m * (q + 1)
next_multiple m q r x e h = omega arith

magnitude-positive : (b : ℕ) → b < word → b ≢ 0 → 0 < magnitude b
magnitude-positive b hb nonzero = ground arith

divides :
    (s : Bool) (m q r x : ℕ)
    → m * q + r ≡ x
    → r < m
    → (remainder_of s m r < m) × Divides s m (quotient_of s q r) x (remainder_of s m r)
divides false m q r x e h = (h, e)
divides true m q r x e h = let n = next_multiple m q r x e h in ground arith

-- On a signed type, `mod` by a divisor other than 0 gives the Euclidean remainder, the division
-- INT64_MIN mod -1 excepted.
pub fold_imod-IsEuclidean :
    (a b : ℕ)
    → a < word
    → b < word
    → b ≢ 0
    → ¬ ((a ≡ half) × (b ≡ word - 1))
    → (q : ℕ) × (r : ℕ) × (fold_bin true binop_imod a b ≡ done r) × IsEuclidean a b q r
unfolding fold_bin
fold_imod-IsEuclidean a b ha hb nonzero fits =
    let x = magnitude a % magnitude b in
    let lt = mod-lt (magnitude a) (magnitude-positive b hb nonzero) in
    let e = div-add-mod (magnitude a) (magnitude b) in
    let (in_range, divides_it) =
      divides (is_negative a) (magnitude b) (magnitude a / magnitude b) x (magnitude a) e lt in
    let s = is_negative a in
    (
      quotient_of s (magnitude a / magnitude b) x,
      remainder_of s (magnitude b) x,
      ap (λ c. computed c >>= λ r. done (adjust b r)) (defined-signed_rem a b nonzero fits)
          ∙ ap done (adjusted a b x ha hb lt),
      (in_range, divides_it),
    )

-- On an unsigned type, `>>` divides a value below 2^63.
fold_ishr-below_half :
    (a n : ℕ) → a < half → n < 64 → fold_bin false binop_ishr a n ≡ done (a / 2 ^ n)
unfolding fold_bin shift_right
fold_ishr-below_half a n ha hn = ground arith

twice_quotient : (p q r a : ℕ) → p * q + r ≡ a → 2 ≤ p → 2 * q ≤ a
twice_quotient p q r a e h = let m = mul-le-mul_right q h in omega arith

two_le_power : (n : ℕ) → 0 < n → 2 ≤ 2 ^ n
two_le_power zero h = absurd (omega arith)
two_le_power (suc n) h =
    let e = two-pow-succ n in let pos = one-le-pow n 2 (omega arith) in omega arith

shifted-lt : (a n : ℕ) → a < word → 0 < n → a / 2 ^ n < half
shifted-lt a n ha h =
    let t =
      twice_quotient (2 ^ n) (a / 2 ^ n) (a % 2 ^ n) a (div-add-mod a (2 ^ n)) (two_le_power n h) in
    omega arith

-- From 2^63 on it gives a value from 2^63 on, and the quotient is below.
fold_ishr-above_half :
    (a n : ℕ)
    → half ≤ a
    → a < word
    → 0 < n
    → n < 64
    → (r : ℕ) × (fold_bin false binop_ishr a n ≡ done r) × (half ≤ r) × (a / 2 ^ n < half)
unfolding fold_bin shift_right
fold_ishr-above_half a n low ha pos hn =
    let small = div-le_self (word - 1 - a) (2 ^ n) in
    (word - 1 - (word - 1 - a) / 2 ^ n, ground arith, omega arith, shifted-lt a n ha pos)

no_shift : (a : ℕ) → half ≤ a → a < word → fold_bin false binop_ishr a 0 ≡ done (a / 2 ^ 0)
unfolding fold_bin shift_right
no_shift a low ha = ground arith

done_same : {x y : ℕ} → done x ≡ done y → x ≡ y
done_same e = cc

ishr_quotient :
    (a n : ℕ)
    → a < word
    → n < 64
    → (a < half) ⊎ (n ≡ 0)
    → fold_bin false binop_ishr a n ≡ done (a / 2 ^ n)
ishr_quotient a n ha hn (inl small) = fold_ishr-below_half a n small hn
ishr_quotient a n ha hn (inr z) = rw z (elim (Bool-cases (leb half a)) [
  | inl e ↦ no_shift a (ground arith) ha
  | inr e ↦ fold_ishr-below_half a 0 (ground arith) (omega arith)
])

quotient_ishr :
    (a n : ℕ)
    → a < word
    → n < 64
    → fold_bin false binop_ishr a n ≡ done (a / 2 ^ n)
    → (a < half) ⊎ (n ≡ 0)
quotient_ishr a zero ha hn e = inr refl
quotient_ishr a (suc n) ha hn e = elim (Bool-cases (leb half a)) [
  | inl big ↦
      let (r, at, up, down) = fold_ishr-above_half a (suc n) (ground arith) ha (omega arith) hn in
      let same : r ≡ a / 2 ^ suc n = done_same (sym at ∙ e) in absurd (omega arith)
  | inr small ↦ inl (ground arith)
]

-- On an unsigned type, `>>` by less than 64 places gives the quotient by the power of two exactly for
-- the values below 2^63 and for a shift by 0: it is an arithmetic shift.
pub fold_ishr_lem :
    (a n : ℕ)
    → a < word
    → n < 64
    → (fold_bin false binop_ishr a n ≡ done (a / 2 ^ n)) ↔ ((a < half) ⊎ (n ≡ 0))
fold_ishr_lem a n ha hn = (quotient_ishr a n ha hn, ishr_quotient a n ha hn)
