-- ===== src/Feeder/State.antt =====
-- OScFile, OScPosition and the fields of OScFeederBase. A pointer into a file's body is its offset
-- from pstart, and the byte behind the body is the 0 that ends a std::string. The columns that the
-- source computes as `p - clstart + 1` are written `p + 1 - clstart`, since `-` stops at 0; clstart
-- is at most one place behind p.
use dq_lang.Prelude.{
  ℕ, zero, suc, ◌+◌, ◌-◌, Bool, false, ◌&&◌, ◌||◌, Option, none, some, [], ◌∷◌, Bytes, length,
  get_or, take, drop, ltb, ◌==◌, if◌then◌else◌,
}

pub record ScFile : Type 0 where
  pub index : ℕ
  pub body : Bytes

pub record Position : Type 0 where
  pub scfile : ScFile
  pub pos : ℕ
  pub line : ℕ
  pub col : ℕ

pub record Feeder : Type 0 where
  pub file : ScFile
  pub curp : ℕ
  pub prevp : ℕ
  pub prevlen : ℕ
  pub curline : ℕ
  pub curcol : ℕ
  pub clstart : ℕ
  pub prevpos : Option Position
  pub last_token_end_line : ℕ

-- The variables of a reading loop: the place, the line and where the line starts.
pub record Cursor : Type 0 where
  pub p : ℕ
  pub line : ℕ
  pub line_start : ℕ

abbrev pub newline : ℕ
newline = 10

abbrev pub is_eol : ℕ → Bool
is_eol c = c == 13 || c == 10

-- One round of a loop over a byte: `if (*p == line_end_char) { ++curline; clstart = p + 1; } ++p`.
abbrev pub advance : ℕ → Cursor → Cursor
advance c k = record {
  p = k.p + 1;
  line = if c == newline then k.line + 1 else k.line;
  line_start = if c == newline then k.p + 1 else k.line_start;
}

-- What the cursor has in front of it.
abbrev pub unread : Feeder → Bytes
unread f = drop f.curp f.file.body

abbrev pub cursor : Feeder → Cursor
cursor f = record { p = f.curp; line = f.curline; line_start = f.clstart }

-- curp, curline and clstart from a loop, and the column for them.
abbrev pub place : Feeder → Cursor → Feeder
place f k = record f {
  curp = k.p;
  curline = k.line;
  clstart = k.line_start;
  curcol = k.p + 1 - k.line_start;
}

-- Only curp moves, on the same line.
abbrev pub move_to : Feeder → ℕ → Feeder
move_to f p = record f { curp = p; curcol = p + 1 - f.clstart }

-- OScPosition::RecalcLineCol: the loop over the bytes before a place.
unfoldable pub recalc_loop : Bytes → Cursor → Cursor
recalc_loop [] k = k
recalc_loop (c ∷ cs) k = recalc_loop cs (advance c k)

abbrev pub file_start : Cursor
file_start = record { p = 0; line = 1; line_start = 0 }

-- The place by counting from the start of the file.
unfoldable pub locate : Bytes → ℕ → Cursor
unfolding recalc_loop
locate body pos = recalc_loop (take pos body) file_start

-- OScPosition(ascfile, apos): a place outside the file has line and column 0.
unfoldable pub recalc_line_col : ScFile → ℕ → Position
unfolding locate
recalc_line_col file pos =
    if ltb (length file.body) pos
    then record { scfile = file; pos = pos; line = 0; col = 0 }
    else record {
      scfile = file;
      pos = pos;
      line = (locate file.body pos).line;
      col = pos + 1 - (locate file.body pos).line_start;
    }

unfoldable pub save_cur_pos : Feeder → Position
save_cur_pos f = record { scfile = f.file; pos = f.curp; line = f.curline; col = f.curcol }

-- SearchClStart: backwards from curp itself, the byte at pstart not looked at.
unfoldable pub search_cl_loop : Bytes → ℕ → ℕ
search_cl_loop body zero = 0
search_cl_loop body (suc p) =
    let before = search_cl_loop body p in
    if is_eol (get_or body (suc p) 0) then suc p + 1 else before

unfoldable pub search_cl_start : Feeder → Feeder
unfolding search_cl_loop
search_cl_start f = record f { clstart = search_cl_loop f.file.body f.curp }

unfoldable pub recalc_cur_line_col : Feeder → Feeder
unfolding recalc_line_col search_cl_start
recalc_cur_line_col f =
    let here = recalc_line_col f.file f.curp in
    search_cl_start (record f { curline = here.line; curcol = here.col })

-- SetCurPos(OScPosition &)
unfoldable pub set_cur_pos : Position → Feeder → Feeder
unfolding search_cl_start
set_cur_pos at f = search_cl_start (record f {
  file = at.scfile;
  curp = at.pos;
  curline = at.line;
  curcol = at.col;
  last_token_end_line = at.line;
  prevp = at.pos;
  prevlen = 0;
})

-- SetCurPos(OScFile *, char *), at a file.
unfoldable pub enter_file : ScFile → ℕ → Feeder → Feeder
unfolding recalc_cur_line_col
enter_file file pos f =
    record (recalc_cur_line_col (record f { file = file; curp = pos; prevp = pos; prevlen = 0 })) {
      last_token_end_line = 0;
    }

-- prevpos.pos != curp: another offset, or another file's buffer.
abbrev pub same_place : Option Position → Feeder → Bool
same_place none f = false
same_place (some at) f = at.pos == f.curp && at.scfile.index == f.file.index

-- `if (prevpos.pos != curp) SaveCurPos(prevpos)`
abbrev pub mark_prevpos : Feeder → Feeder
mark_prevpos f = record f {
  prevpos = if same_place f.prevpos f then f.prevpos else some (save_cur_pos f);
}
