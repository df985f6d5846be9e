-- ===== src/Feeder/Scan.antt =====
-- The operations that skip or search: SkipSpaces, ReadLine, ReadTo, ReadToChar, SearchPattern.
-- A loop runs over the bytes in front of the cursor, which are `*p` while p < bufend.
use dq_lang.Feeder.State.{Feeder, Cursor, newline, is_eol, advance, unread, cursor, place}
use dq_lang.Prelude.{
  ℕ, suc, ◌+◌, ◌-◌, Bool, true, false, not, ◌&&◌, ◌||◌, Option, none, some, [], ◌∷◌, Bytes, length,
  drop, ltb, ◌==◌, if◌then◌else◌,
}

abbrev pub is_blank : ℕ → Bool
is_blank c = c == 32 || c == 9

unfoldable pub skip_spaces_loop : Bool → Bytes → Cursor → Cursor
skip_spaces_loop skip_eol [] k = k
skip_spaces_loop skip_eol (c ∷ cs) k =
    if is_blank c || skip_eol && is_eol c then skip_spaces_loop skip_eol cs (advance c k) else k

unfoldable pub skip_spaces : Bool → Feeder → Feeder
unfolding skip_spaces_loop
skip_spaces skip_eol f = place f (skip_spaces_loop skip_eol (unread f) (cursor f))

-- The scan of ReadLine up to a line end; it leaves curline alone.
unfoldable pub read_line_loop : Bytes → ℕ
read_line_loop [] = 0
read_line_loop (c ∷ cs) = if is_eol c then 0 else suc (read_line_loop cs)

-- One line end byte `mark` is skipped, if it stands there.
abbrev pub skip_mark : ℕ → Bytes → Cursor → Cursor
skip_mark mark [] k = k
skip_mark mark (c ∷ cs) k =
    if c == mark
    then record {
      p = k.p + 1;
      line = if c == newline then k.line + 1 else k.line;
      line_start = k.p + 1;
    }
    else k

unfoldable pub read_line : Feeder → Feeder × Bool
unfolding read_line_loop
read_line f =
    let n = read_line_loop (unread f) in
    let at_end = record (cursor f) { p = f.curp + n } in
    let past_cr = skip_mark 13 (drop at_end.p f.file.body) at_end in
    let past_lf = skip_mark 10 (drop past_cr.p f.file.body) past_cr in
    (
      record (place f past_lf) { prevp = f.curp; prevlen = n; last_token_end_line = past_lf.line },
      ltb f.curp (length f.file.body),
    )

-- The inner loop over the check characters.
unfoldable pub has_char : Bytes → ℕ → Bool
has_char [] c = false
has_char (x ∷ xs) c = x == c || has_char xs c

-- The place of the first check character, or the end of the buffer; the flag says which.
unfoldable pub read_to_loop : Bytes → Bytes → Cursor → Cursor × Bool
unfolding has_char
read_to_loop chars [] k = (k, false)
read_to_loop chars (c ∷ cs) k =
    if has_char chars c then (k, true) else read_to_loop chars cs (advance c k)

-- ReadTo sets prevlen, and leaves prevp as it was.
unfoldable pub read_to : Bytes → Feeder → Feeder × Bool
unfolding read_to_loop
read_to chars f =
    let (k, found) = read_to_loop chars (unread f) (cursor f) in
    (
      record (place f k) {
        prevlen = k.p - f.curp;
        last_token_end_line = if found then k.line else f.last_token_end_line;
      },
      found,
    )

unfoldable pub read_to_char : ℕ → Feeder → Feeder × Bool
unfolding read_to_loop
read_to_char c f =
    let (k, found) = read_to_loop (c ∷ []) (unread f) (cursor f) in
    (
      record (place f k) {
        prevp = f.curp;
        prevlen = k.p - f.curp;
        last_token_end_line = if found then k.line else f.last_token_end_line;
      },
      found,
    )

-- The comparison with the check string.
unfoldable pub starts_with : Bytes → Bytes → Bool
starts_with [] text = true
starts_with (x ∷ xs) [] = false
starts_with (x ∷ xs) (c ∷ cs) = x == c && starts_with xs cs

-- while (cps < bufend - csslen): a place with exactly csslen bytes left is not tried.
unfoldable pub search_loop : Bytes → Bytes → Cursor → Option Cursor
unfolding starts_with
search_loop pattern [] k = none
search_loop pattern (c ∷ cs) k =
    let later = search_loop pattern cs (advance c k) in
    if not (ltb (length pattern) (length (c ∷ cs)))
    then none
    else if starts_with pattern (c ∷ cs)
    then some k
    else later

-- SearchPattern behind its loop.
abbrev pub found_pattern : Bytes → Bool → Feeder → Option Cursor → Feeder × Bool
found_pattern pattern consume f none = (f, false)
found_pattern pattern consume f (some k) = (
  record (place f (record k { p = if consume then k.p + length pattern else k.p })) {
    prevlen = k.p - f.curp;
    last_token_end_line = if consume then k.line else f.last_token_end_line;
  },
  true,
)

unfoldable pub search_pattern : Bytes → Bool → Feeder → Feeder × Bool
unfolding search_loop
search_pattern pattern consume f =
    found_pattern pattern consume f (search_loop pattern (unread f) (cursor f))
