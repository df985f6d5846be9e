-- ===== src/Feeder/Values.antt =====
-- What the token operations return.
use dq_lang.Feeder.State.{Feeder, unread}
use dq_lang.Feeder.Tokens.{
  is_letter, is_digit, identifier_loop, read_identifier, IntScan, int_loop, int_start,
  read_int64_value,
}
use dq_lang.Prelude.{
  ℕ, suc, ◌+◌, ◌-◌, ◌*◌, ◌%◌, ◌^◌, ◌≤◌, ◌<◌, ◌≡◌, refl, ◌∙◌, ap, Bool, true, false, ◌||◌, none,
  some, [], ◌∷◌, ◌++◌, arith, Bytes, length, take-append, All, ◌==◌, lt→ltb,
}

abbrev pub IsDigit : ℕ → Type 0
IsDigit c = (b'0' ≤ c) × (c ≤ b'9')

-- What stops a number: the end of the text, or a byte that is no digit.
abbrev pub StopsNumber : Bytes → Type 0
StopsNumber [] = Unit
StopsNumber (c ∷ cs) = is_digit c ≡ false

-- The number that digits spell behind n, with no bound.
abbrev pub decimal : ℕ → Bytes → ℕ
decimal n [] = n
decimal n (c ∷ cs) = decimal (n * 10 + (c - b'0')) cs

le-decimal : (n : ℕ) (ds : Bytes) → n ≤ decimal n ds
le-decimal n [] = omega arith
le-decimal n (c ∷ cs) = omega (arith, le-decimal (n * 10 + (c - b'0')) cs)

is_digit-IsDigit : (c : ℕ) → IsDigit c → is_digit c ≡ true
unfolding is_digit
is_digit-IsDigit c h = ground arith

-- The loop over digits behind a first round.
int_loop-digits :
    (ds rest : Bytes) (s : IntScan)
    → All IsDigit ds
    → StopsNumber rest
    → 0 < s.count
    → decimal s.result ds < 2 ^ 64
    → s.has_digit ≡ true
    → int_loop (ds ++ rest) s
      ≡ record s { count = s.count + length ds; result = decimal s.result ds }
unfolding int_loop
int_loop-digits [] [] s h stop pos small has = ground arith
int_loop-digits [] (c ∷ cs) s h stop pos small has = ground arith
int_loop-digits (d ∷ ds) rest s (hd, h) stop pos small has =
    let n = s.result * 10 + (d - b'0') in
    let fits : n % 2 ^ 64 ≡ n = omega (arith, le-decimal n ds) in
    rw (is_digit-IsDigit d hd, fits)
      (int_loop-digits ds rest (record s { count = s.count + 1; result = n; has_digit = true }) h
          stop (omega arith) small refl
        ∙ ground arith)

-- Digits from the start of a number, wherever it starts.
int_loop-number :
    (d : ℕ) (ds rest : Bytes) (s : IntScan)
    → IsDigit d
    → All IsDigit ds
    → StopsNumber rest
    → decimal 0 (d ∷ ds) < 2 ^ 64
    → s.result ≡ 0
    → int_loop ((d ∷ ds) ++ rest) s
      ≡ record s { count = s.count + 1 + length ds; result = decimal 0 (d ∷ ds); has_digit = true }
unfolding int_loop
int_loop-number d ds rest s hd h stop small zero_yet =
    let n = 0 * 10 + (d - b'0') in
    let fits : n % 2 ^ 64 ≡ n = omega (arith, le-decimal n ds) in
    rw (is_digit-IsDigit d hd, zero_yet, fits)
      (int_loop-digits ds rest (record s { count = s.count + 1; result = n; has_digit = true }) h
        stop (omega arith) small refl)

-- An optional sign in front of an integer literal.
pub data IsSign : Bytes → Type 0 where
  bare : {s : Bytes} → s ≡ [] → IsSign s
  minus : {s : Bytes} → s ≡ b'-' ∷ [] → IsSign s
  plus : {s : Bytes} → s ≡ b'+' ∷ [] → IsSign s

int_loop-sign :
    (sign : Bytes) (d : ℕ) (ds rest : Bytes)
    → IsSign sign
    → IsDigit d
    → All IsDigit ds
    → StopsNumber rest
    → decimal 0 (d ∷ ds) < 2 ^ 64
    → let s = int_loop (sign ++ ((d ∷ ds) ++ rest)) int_start in
      (s.has_digit ≡ true)
      × (s.result ≡ decimal 0 (d ∷ ds))
      × (s.count ≡ length sign + length (d ∷ ds))
int_loop-sign sign d ds rest (bare e) hd h stop small =
    rw (e, int_loop-number d ds rest int_start hd h stop small refl) (refl, refl, omega arith)
int_loop-sign sign d ds rest (minus e) hd h stop small =
    let next : IntScan = record { count = 1; result = 0; negative = true; has_digit = false } in
    let step : int_loop (b'-' ∷ ((d ∷ ds) ++ rest)) int_start ≡ int_loop ((d ∷ ds) ++ rest) next =
      unfold int_loop in refl in
    rw (e, step, int_loop-number d ds rest next hd h stop small refl) (refl, refl, omega arith)
int_loop-sign sign d ds rest (plus e) hd h stop small =
    let next : IntScan = record { count = 1; result = 0; negative = false; has_digit = false } in
    let step : int_loop (b'+' ∷ ((d ∷ ds) ++ rest)) int_start ≡ int_loop ((d ∷ ds) ++ rest) next =
      unfold int_loop in refl in
    rw (e, step, int_loop-number d ds rest next hd h stop small refl) (refl, refl, omega arith)

-- ReadInt64Value at an optional sign and digits whose number is below 2^64: it returns that number and
-- consumes the literal. A minus sign is consumed and has no effect on the value.
pub read_int64_value_number :
    (f : Feeder) (sign : Bytes) (d : ℕ) (ds rest : Bytes)
    → unread f ≡ sign ++ ((d ∷ ds) ++ rest)
    → IsSign sign
    → IsDigit d
    → All IsDigit ds
    → StopsNumber rest
    → decimal 0 (d ∷ ds) < 2 ^ 64
    → ((read_int64_value f).1 ≡ some (decimal 0 (d ∷ ds)))
      × ((read_int64_value f).0.curp ≡ f.curp + (length sign + length (d ∷ ds)))
unfolding read_int64_value
read_int64_value_number f sign d ds rest split is_sign hd h stop small =
    let (has, value, size) = int_loop-sign sign d ds rest is_sign hd h stop small in
    rw (split, has, value, size) (refl, refl)

abbrev pub is_start_char : ℕ → Bool
is_start_char c = is_letter c || c == b'_'

abbrev pub is_tail_char : ℕ → Bool
is_tail_char c = is_letter c || c == b'_' || is_digit c

abbrev pub IsIdentifier : Bytes → Type 0
IsIdentifier [] = ⊥
IsIdentifier (c ∷ cs) = (is_start_char c ≡ true) × All (λ x. is_tail_char x ≡ true) cs

abbrev pub StopsIdentifier : Bytes → Type 0
StopsIdentifier [] = Unit
StopsIdentifier (c ∷ cs) = is_tail_char c ≡ false

tail_loop :
    (cs rest : Bytes)
    → All (λ x. is_tail_char x ≡ true) cs
    → StopsIdentifier rest
    → identifier_loop false (cs ++ rest) ≡ length cs
unfolding identifier_loop
tail_loop [] [] h stop = refl
tail_loop [] (c ∷ rest) h stop = ground arith
tail_loop (c ∷ cs) rest (hc, h) stop = ground (arith, tail_loop cs rest h stop)

-- ReadIdentifier, consuming, returns the whole identifier in front of it and moves behind it.
pub read_identifier_found :
    (f : Feeder) (id rest : Bytes)
    → unread f ≡ id ++ rest
    → IsIdentifier id
    → StopsIdentifier rest
    → ((read_identifier true f).1 ≡ some id)
      × ((read_identifier true f).0.curp ≡ f.curp + length id)
unfolding read_identifier
read_identifier_found f [] rest split h stop = absurd h
read_identifier_found f (c ∷ cs) rest split (hc, h) stop =
    let size : identifier_loop true (c ∷ (cs ++ rest)) ≡ suc (length cs) =
      unfold identifier_loop in ground (arith, tail_loop cs rest h stop) in
    rw (split, size, lt→ltb 0 (suc (length cs)) (omega arith))
      (ap some (take-append (c ∷ cs) rest), refl)

-- Where ReadIdentifier returns none, no identifier starts.
pub read_identifier-none :
    (f : Feeder) (consume : Bool)
    → (read_identifier consume f).1 ≡ none
    → (id rest : Bytes) → unread f ≡ id ++ rest
    → ¬ IsIdentifier id
unfolding read_identifier
read_identifier-none f consume none_here [] rest split h = h
read_identifier-none f consume none_here (c ∷ cs) rest split (hc, h) =
    let size : identifier_loop true (c ∷ (cs ++ rest)) ≡ suc (identifier_loop false (cs ++ rest)) =
      unfold identifier_loop in ground arith in
    let here : identifier_loop true (unread f) ≡ suc (identifier_loop false (cs ++ rest)) =
      ap (identifier_loop true) split ∙ size in
    ground arith
