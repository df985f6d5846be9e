-- ===== src/Feeder/Quoted.antt =====
-- ReadQuotedString: the closing quote, the dedent of a triple-quoted text, and the escapes.
use dq_lang.Feeder.Scan.{starts_with, is_blank, read_line_loop}
use dq_lang.Feeder.State.{Feeder, is_eol, unread, save_cur_pos, set_cur_pos, recalc_cur_line_col}
use dq_lang.Prelude.{
  ℕ, zero, suc, ◌+◌, ◌-◌, ◌*◌, Bool, true, false, not, ◌&&◌, Option, none, some, [], ◌∷◌, ◌++◌,
  Bytes, length, get_or, take, drop, ltb, leb, ◌==◌, if◌then◌else◌,
}

-- HexDigitValue of utils/dq_utils.h; `none` is its -1.
unfoldable pub hex_digit_value : ℕ → Option ℕ
hex_digit_value c =
    if leb b'0' c && leb c b'9'
    then some (c - b'0')
    else if leb b'a' c && leb c b'f'
    then some (c - b'a' + 10)
    else if leb b'A' c && leb c b'F'
    then some (c - b'A' + 10)
    else none

-- Two more quotes stand behind one.
abbrev pub two_quotes : ℕ → Bytes → Bool
two_quotes quote (c ∷ d ∷ cs) = c == quote && d == quote
two_quotes quote _ = false

-- The loop that looks for the closing quote, n bytes into the content: where the content ends, and
-- the place behind the quote or quotes.
unfoldable pub closing_loop : Bool → ℕ → Bytes → ℕ → Option (ℕ × ℕ)
closing_loop triple quote [] n = none
closing_loop triple quote (c ∷ []) n =
    if not (c == b'\\') && c == quote && not triple then some (n, n + 1) else none
closing_loop triple quote (c ∷ d ∷ cs) n =
    let past_escape = closing_loop triple quote cs (n + 2) in
    let past_byte = closing_loop triple quote (d ∷ cs) (n + 1) in
    if c == b'\\'
    then (if not triple && is_eol d then none else past_escape)
    else if not triple && is_eol c
    then none
    else if c == quote && not triple
    then some (n, n + 1)
    else if c == quote && two_quotes quote (d ∷ cs)
    then some (n, n + 3)
    else past_byte

-- closing_line_start: backwards from the end of the content, over the whole file.
unfoldable pub line_back : Bytes → ℕ → ℕ
line_back body zero = 0
line_back body (suc n) =
    let before = line_back body n in if is_eol (get_or body n 0) then suc n else before

unfoldable pub all_blank : Bytes → Bool
all_blank [] = true
all_blank (c ∷ cs) = is_blank c && all_blank cs

-- The newline in front of the closing delimiter is dropped, with the indentation; `rest` is the
-- size of the text in front of the indentation.
unfoldable pub trim_end : Bytes → ℕ → Bytes
trim_end raw zero = raw
trim_end raw (suc m) =
    if get_or raw m 0 == 10
    then take (if ltb 0 m && get_or raw (m - 1) 0 == 13 then m - 1 else m) raw
    else if get_or raw m 0 == 13
    then take m raw
    else raw

unfoldable pub trim_start : Bytes → Bytes
trim_start [] = []
trim_start (c ∷ cs) =
    if c == 13 && starts_with (10 ∷ []) cs then drop 1 cs else if is_eol c then cs else c ∷ cs

-- The line end in front, if there is one, and the text behind it.
unfoldable pub line_end : Bytes → Option (Bytes × Bytes)
line_end [] = none
line_end (c ∷ cs) =
    if c == 13 && starts_with (10 ∷ []) cs
    then some (13 ∷ 10 ∷ [], drop 1 cs)
    else some (c ∷ [], cs)

-- The loop over the lines, with fuel for one round per line.
unfoldable pub dedent_loop : ℕ → Bytes → Bytes → Bytes
unfolding line_end
dedent_loop zero indentation text = []
dedent_loop (suc f) indentation text =
    let n = read_line_loop text in
    let skip = if starts_with indentation text then length indentation else 0 in
    let line = drop skip (take n text) in
    elim (line_end (drop n text)) [
      | none ↦ line
      | some (mark, later) ↦ line ++ (mark ++ dedent_loop f indentation later)
    ]

unfoldable pub dedent : Bytes → Bytes → Bytes
unfolding dedent_loop read_line_loop
dedent [] text = text
dedent (c ∷ cs) text = dedent_loop (length text + 1) (c ∷ cs) text

-- What is done to the content of a triple-quoted text that ends at the offset content_end.
unfoldable pub trim_triple : Bytes → ℕ → Bytes → Bytes
unfolding line_back all_blank trim_end trim_start dedent
trim_triple body content_end raw =
    let start = line_back body content_end in
    let margin = take (content_end - start) (drop start body) in
    if all_blank margin
    then dedent margin (trim_start (trim_end raw (length raw - length margin)))
    else trim_start raw

-- The escapes of one character.
unfoldable pub simple_escape : ℕ → Option ℕ
simple_escape c =
    if c == b'"'
    then some b'"'
    else if c == b'\''
    then some b'\''
    else if c == b'n'
    then some 10
    else if c == b'r'
    then some 13
    else if c == b't'
    then some 9
    else if c == b'\\'
    then some b'\\'
    else none

-- `\x` with two hexadecimal digits behind it.
unfoldable pub hex_escape : ℕ → ℕ → ℕ → Option ℕ
unfolding hex_digit_value
hex_escape x h l = if not (x == b'x') then none else elim (hex_digit_value h) [
  | none ↦ none
  | some high ↦ elim (hex_digit_value l) [ none ↦ none | some low ↦ some (high * 16 + low) ]
]

unfoldable pub unescape : Bytes → Bytes
unfolding simple_escape hex_escape
unescape [] = []
unescape (c ∷ []) = c ∷ []
unescape (c ∷ x ∷ []) =
    if not (c == b'\\')
    then c ∷ unescape (x ∷ [])
    else elim (simple_escape x) [ some d ↦ d ∷ [] | none ↦ c ∷ x ∷ [] ]
unescape (c ∷ x ∷ h ∷ []) =
    let plain = unescape (x ∷ h ∷ []) in
    let rest = unescape (h ∷ []) in
    if not (c == b'\\')
    then c ∷ plain
    else elim (simple_escape x) [ some d ↦ d ∷ rest | none ↦ c ∷ x ∷ rest ]
unescape (c ∷ x ∷ h ∷ l ∷ cs) =
    let plain = unescape (x ∷ h ∷ l ∷ cs) in
    let rest = unescape (h ∷ l ∷ cs) in
    let after_hex = unescape cs in
    if not (c == b'\\') then c ∷ plain else elim (simple_escape x) [
      | some d ↦ d ∷ rest
      | none ↦ elim (hex_escape x h l) [ some b ↦ b ∷ after_hex | none ↦ c ∷ x ∷ rest ]
    ]

-- The state behind a literal that ends at p.
abbrev pub after_literal : Feeder → ℕ → Feeder
after_literal f p =
    let g = recalc_cur_line_col (record f { curp = p }) in
    record g { last_token_end_line = g.curline }

-- ReadQuotedString behind the loop; `start` is the offset of the content.
unfoldable pub finish_quoted : Feeder → Bool → ℕ → Option (ℕ × ℕ) → Feeder × Option Bytes
unfolding trim_triple unescape save_cur_pos
finish_quoted f triple start none =
    (record (set_cur_pos (save_cur_pos f) f) { prevpos = some (save_cur_pos f) }, none)
finish_quoted f triple start (some (n, past)) =
    let raw = take n (drop start f.file.body) in
    let text = if triple then trim_triple f.file.body (start + n) raw else raw in
    (after_literal f (start + past), some (unescape text))

-- At a byte that opens a literal, with the bytes behind it.
unfoldable pub read_quoted_from : Feeder → ℕ → Bytes → Feeder × Option Bytes
unfolding closing_loop finish_quoted
read_quoted_from f quote cs =
    let triple = two_quotes quote cs in
    let skip = if triple then 3 else 1 in
    finish_quoted f triple (f.curp + skip)
      (closing_loop triple quote (drop (f.curp + skip) f.file.body) 0)

-- The test of the opening quote, on the bytes in front.
unfoldable pub read_quoted_at : Feeder → Bytes → Feeder × Option Bytes
unfolding read_quoted_from
read_quoted_at f [] = (f, none)
read_quoted_at f (c ∷ cs) =
    if not (c == b'"') && not (c == b'\'') then (f, none) else read_quoted_from f c cs

unfoldable pub read_quoted_string : Feeder → Feeder × Option Bytes
unfolding read_quoted_at save_cur_pos set_cur_pos recalc_cur_line_col
read_quoted_string f =
    read_quoted_at (record f { prevpos = some (save_cur_pos f); prevp = f.curp }) (unread f)
