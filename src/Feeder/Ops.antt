-- ===== src/Feeder/Ops.antt =====
-- Any sequence of the reading operations, from the start of a file.
use dq_lang.Feeder.Scan.{skip_spaces, read_to, read_to_char, search_pattern}
use dq_lang.Feeder.ScanTracks.{
  skip_spaces-Tracks, read_to-Tracks, read_to_char-Tracks, search_pattern-Tracks,
}
use dq_lang.Feeder.State.{
  ScFile, Feeder, newline, locate, recalc_line_col, save_cur_pos, enter_file,
}
use dq_lang.Feeder.TokenTracks.{
  check_symbol-Tracks, check_keyword-Tracks, read_identifier-Tracks, read_int64_value-Tracks,
  read_hex64_value-Tracks, read_span-Tracks,
}
use dq_lang.Feeder.Tokens.{
  check_symbol, check_keyword, read_identifier, read_int64_value, read_hex64_value,
  read_decimal_numbers, read_hex_numbers, read_float_num, is_digit, is_hex_char, is_float_char,
}
use dq_lang.Feeder.Tracking.{Tracks, recalc_line_col-Tracks}
use dq_lang.Prelude.{ℕ, ◌≡◌, ◌≢◌, refl, sym, Bool, List, [], ◌∷◌, arith, Bytes, All}

pub data Op : Type 0 where
  spaces : Bool → Op
  to : Bytes → Op
  to_char : ℕ → Op
  pattern_text : Bytes → Bool → Op
  symbol : Bytes → Bool → Op
  keyword : Bytes → Bool → Op
  identifier : Bool → Op
  int64 hex64 decimals hexadecimals float_text : Op

unfoldable pub exec : Op → Feeder → Feeder
exec (spaces skip_eol) f = skip_spaces skip_eol f
exec (to chars) f = (read_to chars f).0
exec (to_char c) f = (read_to_char c f).0
exec (pattern_text text consume) f = (search_pattern text consume f).0
exec (symbol text consume) f = (check_symbol text consume f).0
exec (keyword text consume) f = (check_keyword text consume f).0
exec (identifier consume) f = (read_identifier consume f).0
exec int64 f = (read_int64_value f).0
exec hex64 f = (read_hex64_value f).0
exec decimals f = (read_decimal_numbers f).0
exec hexadecimals f = (read_hex_numbers f).0
exec float_text f = (read_float_num f).0

unfoldable pub exec_all : List Op → Feeder → Feeder
unfolding exec
exec_all [] f = f
exec_all (op ∷ ops) f = exec_all ops (exec op f)

-- A text that is compared with the input holds no line end, as the source asks of CheckSymbol.
abbrev pub OneLine : Op → Type 0
OneLine (pattern_text text consume) = All (λ c. c ≢ newline) text
OneLine (symbol text consume) = All (λ c. c ≢ newline) text
OneLine (keyword text consume) = All (λ c. c ≢ newline) text
OneLine _ = Unit

exec-Tracks : (op : Op) (f : Feeder) → OneLine op → Tracks f → Tracks (exec op f)
unfolding exec read_decimal_numbers read_hex_numbers read_float_num
exec-Tracks (spaces skip_eol) f h t = skip_spaces-Tracks skip_eol f t
exec-Tracks (to chars) f h t = read_to-Tracks chars f t
exec-Tracks (to_char c) f h t = read_to_char-Tracks c f t
exec-Tracks (pattern_text text consume) f h t = search_pattern-Tracks text consume f t h
exec-Tracks (symbol text consume) f h t = check_symbol-Tracks text consume f t h
exec-Tracks (keyword text consume) f h t = check_keyword-Tracks text consume f t h
exec-Tracks (identifier consume) f h t = read_identifier-Tracks consume f t
exec-Tracks int64 f h t = read_int64_value-Tracks f t
exec-Tracks hex64 f h t = read_hex64_value-Tracks f t
exec-Tracks decimals f h t = read_span-Tracks is_digit f (unfold is_digit in refl) t
exec-Tracks hexadecimals f h t = read_span-Tracks is_hex_char f (unfold is_hex_char in refl) t
exec-Tracks float_text f h t = read_span-Tracks is_float_char f (unfold is_float_char in refl) t

pub exec_all-Tracks :
    (ops : List Op) (f : Feeder) → All OneLine ops → Tracks f → Tracks (exec_all ops f)
unfolding exec_all
exec_all-Tracks [] f h t = t
exec_all-Tracks (op ∷ ops) f (ho, h) t = exec_all-Tracks ops (exec op f) h (exec-Tracks op f ho t)

pub enter_file-Tracks : (file : ScFile) (f : Feeder) → Tracks (enter_file file 0 f)
unfolding enter_file locate
enter_file-Tracks file f = record {
  inside = ground arith;
  at = ground arith;
  column = ground arith;
}

-- After any sequence of SkipSpaces, ReadTo, ReadToChar, SearchPattern, CheckSymbol, CheckKeyword,
-- ReadIdentifier and the operations that read numbers, from the start of a file and with no line end
-- in a text to compare, the position that SaveCurPos gives is the one that OScPosition computes by
-- counting.
pub save_cur_pos-exec_all :
    (ops : List Op) (file : ScFile) (f : Feeder)
    → All OneLine ops
    → let g = exec_all ops (enter_file file 0 f) in save_cur_pos g ≡ recalc_line_col g.file g.curp
unfolding save_cur_pos
save_cur_pos-exec_all ops file f h = sym (
    recalc_line_col-Tracks _
      (exec_all-Tracks ops (enter_file file 0 f) h (enter_file-Tracks file f)))
