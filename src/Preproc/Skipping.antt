-- ===== src/Preproc/Skipping.antt =====
-- The parts of scf_dq.cpp that look ahead in a line or skip inactive code:
-- LineEndsBeforeNextToken, SkipInactiveCode, and the names that #{linklib} takes. The loop of
-- SkipInactiveCode is on fuel, one round for a byte is enough.
use dq_lang.Feeder.Quoted.{read_quoted_string}
use dq_lang.Feeder.Scan.{is_blank, read_to}
use dq_lang.Feeder.State.{Feeder, is_eol, unread}
use dq_lang.Feeder.Tokens.{check_symbol, is_letter, is_digit}
use dq_lang.Prelude.{
  ℕ, zero, suc, ◌+◌, ◌-◌, Bool, true, false, not, ◌&&◌, ◌||◌, Option, none, some, [], ◌∷◌, ltb,
  ◌==◌, if◌then◌else◌, length, get_or, codes, Bytes,
}

unfoldable pub link_lib_chars : Bytes → Bool
unfolding is_letter is_digit
link_lib_chars [] = true
link_lib_chars (c ∷ cs) =
    if is_letter c || is_digit c || b'_' == c || b'-' == c || b'.' == c || b'+' == c
    then link_lib_chars cs
    else false

unfoldable pub is_valid_link_lib_name : Bytes → Bool
unfolding link_lib_chars
is_valid_link_lib_name [] = false
is_valid_link_lib_name (c ∷ cs) = link_lib_chars (c ∷ cs)

-- The loop on the bytes in front, and with the flag its inner loop inside a comment.
unfoldable pub line_ends_loop : Bool → Bytes → Bool
line_ends_loop inside [] = true
line_ends_loop false (c ∷ []) = is_blank c || is_eol c
line_ends_loop true (c ∷ []) = true
line_ends_loop false (c ∷ d ∷ cs) =
    let later = line_ends_loop false (d ∷ cs) in
    let comment = line_ends_loop true cs in
    if is_blank c
    then later
    else if is_eol c
    then true
    else if c == b'/' && d == b'/'
    then true
    else if c == b'/' && d == b'*'
    then comment
    else false
line_ends_loop true (c ∷ d ∷ cs) =
    let closed = line_ends_loop false cs in
    let later = line_ends_loop true (d ∷ cs) in
    if is_eol c then true else if c == b'*' && d == b'/' then closed else later

unfoldable pub line_ends_before_next_token : Feeder → Bool
unfolding line_ends_loop
line_ends_before_next_token f = line_ends_loop false (unread f)

-- `++curp`, which leaves the line and the column.
abbrev pub skip_byte : Feeder → Feeder
skip_byte f = record f { curp = f.curp + 1 }

abbrev pub past_quoted : Feeder × Option Bytes → Feeder
past_quoted (f, none) = skip_byte f
past_quoted (f, some text) = f

-- What is done at a byte that ReadTo found; the flag says that the loop goes on.
unfoldable pub round_at : Feeder → Feeder × Bool
unfolding read_quoted_string check_symbol
round_at f =
    let c = get_or f.file.body f.curp 0 in
    let (at_hash, directive) = check_symbol (codes "#") false f in
    let (at_line, line_comment) = check_symbol (codes "//") false at_hash in
    let (at_block, block_comment) = check_symbol (codes "/*") false at_line in
    if b'"' == c || b'\'' == c
    then (past_quoted (read_quoted_string f), true)
    else if directive
    then (at_hash, false)
    else if line_comment
    then (at_line, false)
    else if block_comment
    then (at_block, false)
    else (skip_byte at_block, true)

-- A round behind its ReadTo.
unfoldable pub inactive_behind : Feeder × Bool → Feeder × Bool
inactive_behind (g, true) = round_at g
inactive_behind (g, false) = (g, false)

unfoldable pub inactive_round : Feeder → Feeder × Bool
inactive_round f = inactive_behind (read_to (codes "\"'#/") f)

unfoldable pub skip_inactive_loop : ℕ → Feeder → Option Feeder
unfolding inactive_round
skip_inactive_loop zero f = none
skip_inactive_loop (suc n) f =
    let (g, more) = inactive_round f in
    let rest = skip_inactive_loop n g in
    if not (ltb f.curp (length f.file.body)) then some f else if more then rest else some g

unfoldable pub skip_inactive_code : Feeder → Option Feeder
unfolding skip_inactive_loop
skip_inactive_code f = skip_inactive_loop (length f.file.body - f.curp + 1) f
