-- ===== src/Feeder/Literals.antt =====
-- Every byte string can be written as a literal.
use dq_lang.Feeder.Quoted.{
  hex_digit_value, two_quotes, closing_loop, simple_escape, hex_escape, unescape,
  read_quoted_string,
}
use dq_lang.Feeder.State.{Feeder, unread}
use dq_lang.Prelude.{
  ℕ, suc, ◌+◌, ◌-◌, ◌/◌, ◌%◌, ◌≤◌, ◌<◌, ◌≡◌, ◌≢◌, refl, sym, ◌∙◌, ap, inl, inr, false, not, ◌&&◌,
  some, [], ◌∷◌, ◌++◌, append_assoc, arith, Bytes, length, length-append, take, drop, take-append,
  drop-drop, All, IsByte, Bool-cases, if◌then◌else◌, ◌==◌, ltb, leb,
}

unfoldable pub hex_char : ℕ → ℕ
hex_char v = if ltb v 10 then b'0' + v else b'a' + (v - 10)

-- A byte as it is written in a literal: itself, or `\x` and two digits.
unfoldable pub written : ℕ → Bytes
unfolding hex_char
written b =
    if leb 32 b && not (b == b'"') && not (b == b'\\') && not (b == b'\'')
    then b ∷ []
    else b'\\' ∷ b'x' ∷ hex_char (b / 16) ∷ hex_char (b % 16) ∷ []

unfoldable pub written_all : Bytes → Bytes
written_all [] = []
written_all (b ∷ bs) = written b ++ written_all bs

hex_digit_value-hex_char : (v : ℕ) → v < 16 → hex_digit_value (hex_char v) ≡ some v
unfolding hex_digit_value hex_char
hex_digit_value-hex_char v h = ground arith

hex_escape-written :
    (b : ℕ) → b < 256 → hex_escape b'x' (hex_char (b / 16)) (hex_char (b % 16)) ≡ some b
unfolding hex_escape
hex_escape-written b h =
    rw
      (
        hex_digit_value-hex_char (b / 16) (omega arith),
        hex_digit_value-hex_char (b % 16) (omega arith),
      )
      (ap some (omega arith))

unescape_plain :
    (b : ℕ) (rest : Bytes) → (b == b'\\') ≡ false → unescape (b ∷ rest) ≡ b ∷ unescape rest
unfolding unescape
unescape_plain b [] h = refl
unescape_plain b (x ∷ []) h = rw h
unescape_plain b (x ∷ y ∷ []) h = rw h
unescape_plain b (x ∷ y ∷ z ∷ cs) h = rw h

unescape_hex :
    (h l b : ℕ) (rest : Bytes)
    → hex_escape b'x' h l ≡ some b
    → unescape (b'\\' ∷ b'x' ∷ h ∷ l ∷ rest) ≡ b ∷ unescape rest
unfolding unescape simple_escape
unescape_hex h l b rest e = rw e

-- Reading back one written byte.
unescape-written :
    (b : ℕ) (rest : Bytes) → b < 256 → unescape (written b ++ rest) ≡ b ∷ unescape rest
unfolding written
unescape-written b rest h =
    elim (Bool-cases (leb 32 b && not (b == b'"') && not (b == b'\\') && not (b == b'\''))) [
      | inl e ↦ rw e (unescape_plain b rest (ground arith))
      | inr e ↦
          rw e
            (unescape_hex (hex_char (b / 16)) (hex_char (b % 16)) b rest (hex_escape-written b h))
    ]

unescape-written_all : (bs : Bytes) → All IsByte bs → unescape (written_all bs) ≡ bs
unfolding written_all
unescape-written_all [] h = unfold unescape in refl
unescape-written_all (b ∷ bs) (hb, h) =
    unescape-written b (written_all bs) hb ∙ ap (◌∷◌ b) (unescape-written_all bs h)

-- The search for the closing quote passes over a byte that is neither a backslash, nor a line end,
-- nor the quote.
abbrev IsPlain : ℕ → Type 0
IsPlain c = (32 ≤ c) × (c ≢ b'"') × (c ≢ b'\'')

closing_loop_plain :
    (c : ℕ) (text : Bytes) (n : ℕ)
    → IsPlain c
    → (c == b'\\') ≡ false
    → 0 < length text
    → closing_loop false b'"' (c ∷ text) n ≡ closing_loop false b'"' text (n + 1)
unfolding closing_loop
closing_loop_plain c [] n h back pos = absurd (omega arith)
closing_loop_plain c (d ∷ cs) n h back pos = rw back (ground arith)

closing_loop_escape :
    (d : ℕ) (text : Bytes) (n : ℕ)
    → IsPlain d
    → closing_loop false b'"' (b'\\' ∷ d ∷ text) n ≡ closing_loop false b'"' text (n + 2)
unfolding closing_loop
closing_loop_escape d text n h = ground arith

hex_char-IsPlain : (v : ℕ) → v < 16 → IsPlain (hex_char v) × ((hex_char v == b'\\') ≡ false)
unfolding hex_char
hex_char-IsPlain v h = ground arith

closing_loop-written :
    (b : ℕ) (text : Bytes) (n : ℕ)
    → b < 256
    → 0 < length text
    → closing_loop false b'"' (written b ++ text) n
      ≡ closing_loop false b'"' text (n + length (written b))
unfolding written
closing_loop-written b text n h pos =
    elim (Bool-cases (leb 32 b && not (b == b'"') && not (b == b'\\') && not (b == b'\''))) [
      | inl e ↦ rw e (closing_loop_plain b text n (ground arith) (ground arith) pos)
      | inr e ↦
          let (high, high_back) = hex_char-IsPlain (b / 16) (omega arith) in
          let (low, low_back) = hex_char-IsPlain (b % 16) (omega arith) in
          let four : n + 2 + 1 + 1 ≡ n + 4 = omega arith in
          rw e (
            closing_loop_escape b'x' (hex_char (b / 16) ∷ hex_char (b % 16) ∷ text) n (omega arith)
            ∙ closing_loop_plain (hex_char (b / 16)) (hex_char (b % 16) ∷ text) (n + 2) high
                high_back (omega arith)
            ∙ closing_loop_plain (hex_char (b % 16)) text (n + 2 + 1) low low_back pos
            ∙ ap (closing_loop false b'"' text) four)
    ]

closing_loop-written_all :
    (bs rest : Bytes) (n : ℕ)
    → All IsByte bs
    → closing_loop false b'"' (written_all bs ++ b'"' ∷ rest) n
      ≡ some (n + length (written_all bs), n + length (written_all bs) + 1)
unfolding written_all
closing_loop-written_all [] [] n h = unfold closing_loop in ground arith
closing_loop-written_all [] (c ∷ rest) n h = unfold closing_loop in ground arith
closing_loop-written_all (b ∷ bs) rest n (hb, h) =
    let tail = written_all bs ++ b'"' ∷ rest in
    let whole : (written b ++ written_all bs) ++ b'"' ∷ rest ≡ written b ++ tail =
      append_assoc (written b) (written_all bs) (b'"' ∷ rest) in
    let more : length tail ≡ length (written_all bs) + suc (length rest) =
      length-append (written_all bs) (b'"' ∷ rest) in
    let size : n + length (written b) + length (written_all bs)
        ≡ n + length (written b ++ written_all bs) =
      omega (arith, length-append {0} (written b) (written_all bs)) in
    ap (λ t. closing_loop false b'"' t n) whole
    ∙ closing_loop-written b tail n hb (omega arith)
    ∙ closing_loop-written_all bs rest (n + length (written b)) h
    ∙ ap (λ (m : ℕ). some (m, m + 1)) size

written_not_quote : (b : ℕ) (text : Bytes) → two_quotes b'"' (written b ++ text) ≡ false
unfolding written
written_not_quote b [] = ground arith
written_not_quote b (c ∷ text) = ground arith

-- Any byte string that is not empty can be written between quotes, with \x escapes: the literal is
-- read back as that string, and the cursor stands behind the closing quote.
pub read_quoted_string_written :
    (f : Feeder) (b : ℕ) (bs rest : Bytes)
    → unread f ≡ b'"' ∷ (written_all (b ∷ bs) ++ b'"' ∷ rest)
    → All IsByte (b ∷ bs)
    → ((read_quoted_string f).1 ≡ some (b ∷ bs))
      × ((read_quoted_string f).0.curp ≡ f.curp + 1 + (length (written_all (b ∷ bs)) + 1))
unfolding read_quoted_string
read_quoted_string_written f b bs rest split h =
    let text = written_all (b ∷ bs) in
    let single : two_quotes b'"' (text ++ b'"' ∷ rest) ≡ false =
      unfold written_all in
      ap (two_quotes b'"') (append_assoc (written b) (written_all bs) (b'"' ∷ rest))
      ∙ written_not_quote b (written_all bs ++ b'"' ∷ rest) in
    let behind : drop (f.curp + 1) f.file.body ≡ text ++ b'"' ∷ rest =
      sym (drop-drop f.curp 1 f.file.body) ∙ ap (drop 1) split in
    let closed : closing_loop false b'"' (text ++ b'"' ∷ rest) 0
        ≡ some (length text, length text + 1) =
      closing_loop-written_all (b ∷ bs) rest 0 h ∙ ap (λ (m : ℕ). some (m, m + 1)) (omega arith) in
    let raw : take (length text) (text ++ b'"' ∷ rest) ≡ text = take-append text (b'"' ∷ rest) in
    rw (split, single, behind, closed)
      (rw (behind, raw, unescape-written_all (b ∷ bs) h) refl, refl)
