-- ===== src/Feeder/Tokens.antt =====
-- The operations that read tokens: CheckSymbol, CheckKeyword, ReadIdentifier and the numbers.
-- An int64_t stands as its bit pattern; `*` and `+` on it wrap around here.
use dq_lang.Feeder.Scan.{starts_with}
use dq_lang.Feeder.State.{Feeder, unread, move_to, mark_prevpos, save_cur_pos}
use dq_lang.Prelude.{
  ℕ, suc, ◌+◌, ◌-◌, ◌*◌, ◌%◌, ◌^◌, Bool, true, false, not, ◌&&◌, ◌||◌, Option, none, some, [], ◌∷◌,
  Bytes, length, get_or, take, ltb, leb, ◌==◌, if◌then◌else◌,
}

-- The state after curp = p; curcol = …; last_token_end_line = curline.
abbrev pub consume_to : Feeder → ℕ → Feeder
consume_to f p = record (move_to f p) { last_token_end_line = f.curline }

unfoldable pub check_symbol : Bytes → Bool → Feeder → Feeder × Bool
unfolding starts_with save_cur_pos
check_symbol text consume f =
    let g = mark_prevpos f in
    if not (starts_with text (unread f))
    then (g, false)
    else (if consume then consume_to g (f.curp + length text) else g, true)

unfoldable pub is_letter : ℕ → Bool
is_letter c = leb b'A' c && leb c b'Z' || leb b'a' c && leb c b'z'

unfoldable pub is_digit : ℕ → Bool
is_digit c = leb b'0' c && leb c b'9'

-- The lambda of CheckKeyword.
unfoldable pub is_identifier_char : ℕ → Bool
unfolding is_letter is_digit
is_identifier_char c = is_letter c || is_digit c || b'_' == c

unfoldable pub check_keyword : Bytes → Bool → Feeder → Feeder × Bool
unfolding is_identifier_char check_symbol
check_keyword text consume f =
    if ltb 0 f.curp && is_identifier_char (get_or f.file.body (f.curp - 1) 0)
      || ltb (length text) (length (unread f))
        && is_identifier_char (get_or (unread f) (length text) 0)
    then (f, false)
    else check_symbol text consume f

-- The loop of ReadIdentifier; the flag says that p is still curp.
unfoldable pub identifier_loop : Bool → Bytes → ℕ
unfolding is_letter is_digit
identifier_loop first [] = 0
identifier_loop first (c ∷ cs) =
    if is_letter c || c == b'_' || not first && is_digit c
    then suc (identifier_loop false cs)
    else 0

-- The result is the identifier, if there is one; rvalue is untouched otherwise.
unfoldable pub read_identifier : Bool → Feeder → Feeder × Option Bytes
unfolding identifier_loop save_cur_pos
read_identifier consume f =
    let n = identifier_loop true (unread f) in
    let g = record (mark_prevpos f) { prevp = f.curp; prevlen = n } in
    if ltb 0 n
    then (if consume then consume_to g (f.curp + n) else g, some (take n (unread f)))
    else (g, none)

-- IsNumChar, on the bytes from curp to the end of the buffer.
unfoldable pub is_num_char : Bytes → Bool
unfolding is_digit
is_num_char [] = false
is_num_char (c ∷ cs) = is_digit c

unfoldable pub is_int_literal : Bytes → Bool
unfolding is_num_char
is_int_literal [] = false
is_int_literal (c ∷ cs) = is_num_char (c ∷ cs) || (c == b'-' || c == b'+') && is_num_char cs

-- The variables of ReadInt64Value's loop. The sign is recorded and never used.
pub record IntScan : Type 0 where
  pub count : ℕ
  pub result : ℕ
  pub negative : Bool
  pub has_digit : Bool

unfoldable pub int_loop : Bytes → IntScan → IntScan
unfolding is_digit
int_loop [] s = s
int_loop (c ∷ cs) s =
    let next = record s {
      count = s.count + 1;
      result = if is_digit c then (s.result * 10 + (c - b'0')) % 2 ^ 64 else s.result;
      negative = if is_digit c then s.negative else c == b'-';
      has_digit = if is_digit c then true else s.has_digit;
    } in
    if is_digit c || (c == b'-' || c == b'+') && s.count == 0 then int_loop cs next else s

abbrev pub int_start : IntScan
int_start = record { count = 0; result = 0; negative = false; has_digit = false }

unfoldable pub read_int64_value : Feeder → Feeder × Option ℕ
unfolding int_loop save_cur_pos
read_int64_value f =
    let s = int_loop (unread f) int_start in
    let g = record f { prevpos = some (save_cur_pos f); prevp = f.curp } in
    if s.has_digit
    then (consume_to (record g { prevlen = s.count }) (f.curp + s.count), some s.result)
    else (g, none)

-- HexDigitValue of the tools, and the three branches of ReadHex64Value.
unfoldable pub hex_digit : ℕ → Option ℕ
unfolding is_digit
hex_digit c =
    if is_digit c
    then some (c - b'0')
    else if leb b'a' c && leb c b'f'
    then some (c - b'a' + 10)
    else if leb b'A' c && leb c b'F'
    then some (c - b'A' + 10)
    else none

unfoldable pub hex_loop : Bytes → ℕ → ℕ → ℕ × ℕ
unfolding hex_digit
hex_loop [] count result = (count, result)
hex_loop (c ∷ cs) count result = elim (hex_digit c) [
  | none ↦ (count, result)
  | some v ↦ hex_loop cs (count + 1) ((result * 16 + v) % 2 ^ 64)
]

unfoldable pub read_hex64_value : Feeder → Feeder × Option ℕ
unfolding hex_loop save_cur_pos
read_hex64_value f =
    let (n, v) = hex_loop (unread f) 0 0 in
    let g = record f { prevpos = some (save_cur_pos f); prevp = f.curp; prevlen = n } in
    if ltb 0 n then (consume_to g (f.curp + n), some v) else (g, none)

-- The loop of ReadDecimalNumbers, ReadHexNumbers and ReadFloatNum: the bytes that a test takes.
unfoldable pub span_loop : (ℕ → Bool) → Bytes → ℕ
span_loop test [] = 0
span_loop test (c ∷ cs) = if test c then suc (span_loop test cs) else 0

unfoldable pub read_span : (ℕ → Bool) → Feeder → Feeder × Bool
unfolding span_loop
read_span test f =
    let n = span_loop test (unread f) in
    (
      record (move_to f (f.curp + n)) {
        prevp = f.curp;
        prevlen = n;
        last_token_end_line = if ltb 0 n then f.curline else f.last_token_end_line;
      },
      ltb 0 n,
    )

unfoldable pub read_decimal_numbers : Feeder → Feeder × Bool
unfolding read_span is_digit
read_decimal_numbers f = read_span is_digit f

unfoldable pub is_hex_char : ℕ → Bool
unfolding is_digit
is_hex_char c = is_digit c || leb b'A' c && leb c b'F' || leb b'a' c && leb c b'f'

unfoldable pub read_hex_numbers : Feeder → Feeder × Bool
unfolding read_span is_hex_char
read_hex_numbers f = read_span is_hex_char f

unfoldable pub is_float_char : ℕ → Bool
unfolding is_digit
is_float_char c = is_digit c || c == b'.' || c == b'-' || b'+' == c || b'e' == c || b'E' == c

unfoldable pub read_float_num : Feeder → Feeder × Bool
unfolding read_span is_float_char
read_float_num f = read_span is_float_char f
