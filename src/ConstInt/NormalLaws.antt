-- ===== src/ConstInt/NormalLaws.antt =====
-- NormalizeConstant gives the one value of the type that has the same low bits.
use dq_lang.ConstInt.Normal.{IntType, normalize_constant}
use dq_lang.ConstInt.Words.{word}
use dq_lang.Prelude.{ℕ, ◌-◌, ◌%◌, ◌^◌, ◌≤◌, ◌<◌, ◌≡◌, ◌⊎◌, sym, ◌∙◌, Bool, true, false, arith}

-- The widths of the integer types of the language.
pub data IsWidth : ℕ → Type 0 where
  w8 : {n : ℕ} → n ≡ 8 → IsWidth n
  w16 : {n : ℕ} → n ≡ 16 → IsWidth n
  w32 : {n : ℕ} → n ≡ 32 → IsWidth n
  w64 : {n : ℕ} → n ≡ 64 → IsWidth n

-- The bit patterns, sign-extended to 64 bits, of the values of a type.
abbrev pub InRangeOf : Bool → ℕ → ℕ → Type 0
InRangeOf true w v = (v < 2 ^ (w - 1)) ⊎ ((word - 2 ^ (w - 1) ≤ v) × (v < word))
InRangeOf false w v = v < 2 ^ w

abbrev pub InRange : IntType → ℕ → Type 0
InRange t v = InRangeOf t.issigned t.bitlength v

abbrev int_type : Bool → ℕ → IntType
int_type s w = record { bitlength = w; issigned = s }

normalize_at :
    (s : Bool) (w raw : ℕ)
    → IsWidth w
    → raw < word
    → InRangeOf s w (normalize_constant (int_type s w) raw)
      × (normalize_constant (int_type s w) raw % 2 ^ w ≡ raw % 2 ^ w)
      × (normalize_constant (int_type s w) raw < word)
unfolding normalize_constant
normalize_at true w raw (w8 e) h = rw e (ground arith)
normalize_at false w raw (w8 e) h = rw e (ground arith)
normalize_at true w raw (w16 e) h = rw e (ground arith)
normalize_at false w raw (w16 e) h = rw e (ground arith)
normalize_at true w raw (w32 e) h = rw e (ground arith)
normalize_at false w raw (w32 e) h = rw e (ground arith)
normalize_at true w raw (w64 e) h = rw e (omega arith)
normalize_at false w raw (w64 e) h = rw e (omega arith)

unique_at :
    (s : Bool) (w u v : ℕ)
    → IsWidth w
    → InRangeOf s w u
    → InRangeOf s w v
    → u % 2 ^ w ≡ v % 2 ^ w
    → u ≡ v
unique_at true w u v (w8 e) = rw e (λ hu hv same. omega arith)
unique_at false w u v (w8 e) = rw e (λ hu hv same. omega arith)
unique_at true w u v (w16 e) = rw e (λ hu hv same. omega arith)
unique_at false w u v (w16 e) = rw e (λ hu hv same. omega arith)
unique_at true w u v (w32 e) = rw e (λ hu hv same. omega arith)
unique_at false w u v (w32 e) = rw e (λ hu hv same. omega arith)
unique_at true w u v (w64 e) = rw e (λ hu hv same. omega arith)
unique_at false w u v (w64 e) = rw e (λ hu hv same. omega arith)

-- The normal form of a word lies in the range of the type, keeps the low bits and is a word.
pub normalize_constant_lem :
    (t : IntType) (raw : ℕ)
    → IsWidth t.bitlength
    → raw < word
    → InRange t (normalize_constant t raw)
      × (normalize_constant t raw % 2 ^ t.bitlength ≡ raw % 2 ^ t.bitlength)
      × (normalize_constant t raw < word)
normalize_constant_lem t raw o h = normalize_at t.issigned t.bitlength raw o h

-- A value in the range of the type with the low bits of a word is the normal form of that word.
pub normalize_constant_unique :
    (t : IntType) (raw v : ℕ)
    → IsWidth t.bitlength
    → raw < word
    → InRange t v
    → v % 2 ^ t.bitlength ≡ raw % 2 ^ t.bitlength
    → v ≡ normalize_constant t raw
normalize_constant_unique t raw v o h range same =
    let (in_range, low, _) = normalize_constant_lem t raw o h in
    unique_at t.issigned t.bitlength v (normalize_constant t raw) o range in_range (same ∙ sym low)

-- Values with the same low bits have the same normal form.
pub normalize_constant_congruent :
    (t : IntType) (u v : ℕ)
    → IsWidth t.bitlength
    → u < word
    → v < word
    → u % 2 ^ t.bitlength ≡ v % 2 ^ t.bitlength
    → normalize_constant t u ≡ normalize_constant t v
normalize_constant_congruent t u v o hu hv same =
    let (range, low, _) = normalize_constant_lem t u o hu in
    normalize_constant_unique t v (normalize_constant t u) o hv range (low ∙ same)
