-- ===== src/ConstInt/LowBits.antt =====
-- The low bits of a result on 64-bit words depend on the low bits of the operands alone.
use native.Mathlib.Nat.{div-add-mod, mul-add-mod_self_left, mul_comm}
use dq_lang.ConstInt.NormalLaws.{IsWidth, w8, w16, w32, w64}
use dq_lang.ConstInt.Words.{word, add64, sub64, mul64, neg64, not64}
use dq_lang.Prelude.{ℕ, ◌-◌, ◌*◌, ◌/◌, ◌%◌, ◌^◌, ◌<◌, ◌≡◌, sym, ◌∙◌, ap, arith}

mul-mod_low : (a b m : ℕ) → a * b % m ≡ a % m * b % m
mul-mod_low a b m =
    let e = div-add-mod a m in
    ap (λ t. t * b % m) (sym e)
    ∙ ap (λ t. t % m) (omega arith)
    ∙ mul-add-mod_self_left m (a / m * b) (a % m * b)

mul-mod_congruent : (a a' b b' m : ℕ) → a % m ≡ a' % m → b % m ≡ b' % m → a * b % m ≡ a' * b' % m
mul-mod_congruent a a' b b' m ha hb =
    mul-mod_low a b m
    ∙ ap (λ t. t * b % m) ha
    ∙ sym (mul-mod_low a' b m)
    ∙ ap (λ t. t % m) (mul_comm a' b)
    ∙ mul-mod_low b a' m
    ∙ ap (λ t. t * a' % m) hb
    ∙ sym (mul-mod_low b' a' m)
    ∙ ap (λ t. t % m) (mul_comm b' a')

low_word : (x w : ℕ) → IsWidth w → x % word % 2 ^ w ≡ x % 2 ^ w
low_word x w (w8 e) = rw e (omega arith)
low_word x w (w16 e) = rw e (omega arith)
low_word x w (w32 e) = rw e (omega arith)
low_word x w (w64 e) = rw e (omega arith)

abbrev pub SameLow : ℕ → ℕ → ℕ → Type 0
SameLow w a b = a % 2 ^ w ≡ b % 2 ^ w

pub add64_low :
    (w a a' b b' : ℕ)
    → IsWidth w
    → SameLow w a a'
    → SameLow w b b'
    → SameLow w (add64 a b) (add64 a' b')
unfolding add64
add64_low w a a' b b' (w8 e) = rw e (λ ha hb. omega arith)
add64_low w a a' b b' (w16 e) = rw e (λ ha hb. omega arith)
add64_low w a a' b b' (w32 e) = rw e (λ ha hb. omega arith)
add64_low w a a' b b' (w64 e) = rw e (λ ha hb. omega arith)

-- The complement of a word has the complement of its low bits.
complement_low :
    (w b b' : ℕ)
    → IsWidth w
    → b < word
    → b' < word
    → SameLow w b b'
    → SameLow w (word - 1 - b) (word - 1 - b')
complement_low w b b' (w8 e) h h' = rw e (λ same. omega arith)
complement_low w b b' (w16 e) h h' = rw e (λ same. omega arith)
complement_low w b b' (w32 e) h h' = rw e (λ same. omega arith)
complement_low w b b' (w64 e) h h' = rw e (λ same. omega arith)

pub sub64_low :
    (w a a' b b' : ℕ)
    → IsWidth w
    → b < word
    → b' < word
    → SameLow w a a'
    → SameLow w b b'
    → SameLow w (sub64 a b) (sub64 a' b')
unfolding sub64
sub64_low w a a' b b' (w8 e) h h' = rw e (λ ha hb. omega arith)
sub64_low w a a' b b' (w16 e) h h' = rw e (λ ha hb. omega arith)
sub64_low w a a' b b' (w32 e) h h' = rw e (λ ha hb. omega arith)
sub64_low w a a' b b' (w64 e) h h' = rw e (λ ha hb. omega arith)

pub mul64_low :
    (w a a' b b' : ℕ)
    → IsWidth w
    → SameLow w a a'
    → SameLow w b b'
    → SameLow w (mul64 a b) (mul64 a' b')
unfolding mul64
mul64_low w a a' b b' o ha hb =
    low_word (a * b) w o ∙ mul-mod_congruent a a' b b' (2 ^ w) ha hb ∙ sym (low_word (a' * b') w o)

pub neg64_low :
    (w a b : ℕ) → IsWidth w → a < word → b < word → SameLow w a b → SameLow w (neg64 a) (neg64 b)
unfolding neg64
neg64_low w a b (w8 e) h h' = rw e (λ same. omega arith)
neg64_low w a b (w16 e) h h' = rw e (λ same. omega arith)
neg64_low w a b (w32 e) h h' = rw e (λ same. omega arith)
neg64_low w a b (w64 e) h h' = rw e (λ same. omega arith)

pub not64_low :
    (w a b : ℕ) → IsWidth w → a < word → b < word → SameLow w a b → SameLow w (not64 a) (not64 b)
unfolding not64
not64_low w a b o h h' same = complement_low w a b o h h' same
