-- ===== src/Tests/Readers.antt =====
-- The source reader: compiler/parser/scf_base.cpp.
use dq_lang.Feeder.Literals.{written, written_all, read_quoted_string_written}
use dq_lang.Feeder.Ops.{Op, spaces, to, identifier, int64, exec_all, save_cur_pos-exec_all}
use dq_lang.Feeder.Quoted.{read_quoted_string}
use dq_lang.Feeder.Scan.{starts_with}
use dq_lang.Feeder.State.{ScFile, Feeder, recalc_line_col, save_cur_pos, enter_file}
use dq_lang.Preproc.Skipping.{line_ends_before_next_token, skip_inactive_code}
use dq_lang.Preproc.LineGaps.{
  is_comment_text, Gap, is_gap, gap_text, gaps_text, at_line_end, opens_gap,
  line_ends_before_next_token-at_line_end, blank, comment,
}
use dq_lang.Preproc.Inactive.{Moves, IsStop, skip_inactive_code_total}
use dq_lang.Prelude.{◌+◌, ◌≡◌, refl, true, none, some, List, [], ◌∷◌, arith, Bytes, length, codes}

abbrev pub feeder_of : Bytes → Feeder
feeder_of body = record {
  file = record { index = 1; body = body };
  curp = 0;
  prevp = 0;
  prevlen = 0;
  curline = 1;
  curcol = 1;
  clstart = 0;
  prevpos = none;
  last_token_end_line = 0;
}

abbrev script : ScFile
script = record { index = 1; body = codes "  var\n a1 = -42;\n" }

abbrev ops : List Op
ops = spaces true ∷ identifier true ∷ spaces true ∷ to (codes "=") ∷ int64 ∷ []

save_cur_pos-exec_all_example :
    let g = exec_all ops (enter_file script 0 (feeder_of [])) in
    save_cur_pos g ≡ recalc_line_col g.file g.curp
save_cur_pos-exec_all_example = save_cur_pos-exec_all ops script (feeder_of []) (ground arith)

abbrev quoted : Feeder
quoted = feeder_of (codes "\"a\\x22\\x0a\" + 1")

read_quoted_string_written_example :
    ((read_quoted_string quoted).1 ≡ some (codes "a\"\n"))
    × ((read_quoted_string quoted).0.curp ≡ 0 + 1 + (length (written_all (codes "a\"\n")) + 1))
read_quoted_string_written_example =
    read_quoted_string_written quoted b'a' (codes "\"\n") (codes " + 1")
      (unfold written_all in unfold written in refl) (ground arith)

abbrev gap_feeder : Feeder
gap_feeder = feeder_of (codes " /* a * b */\t// c")

abbrev line_gaps : List Gap
line_gaps = blank 32 ∷ comment (codes " a * b ") ∷ blank 9 ∷ []

line_ends_before_next_token-at_line_end_example :
    line_ends_before_next_token gap_feeder ≡ at_line_end (codes "// c")
line_ends_before_next_token-at_line_end_example =
    line_ends_before_next_token-at_line_end gap_feeder line_gaps (codes "// c")
      (unfold gaps_text in unfold gap_text in refl)
      (unfold is_gap in unfold is_comment_text in (refl, (refl, (refl, tt))))
      (unfold opens_gap in unfold starts_with in refl)

skip_inactive_code_total_example :
    let f = feeder_of (codes "a 'b#' / c #d") in
    (g : Feeder) × (skip_inactive_code f ≡ some g) × Moves f g × IsStop g
skip_inactive_code_total_example = skip_inactive_code_total (feeder_of (codes "a 'b#' / c #d"))
