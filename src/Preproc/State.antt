-- ===== src/Preproc/State.antt =====
-- OScfCondition and the fields of OScFeederDq that the conditional directives use. The chain of
-- conditions is a list, the innermost first.
use dq_lang.Feeder.Scan.{skip_spaces, read_to, read_to_char}
use dq_lang.Feeder.State.{Feeder, Position}
use dq_lang.Feeder.Tokens.{check_symbol}
use dq_lang.Prelude.{Bool, true, false, not, Option, List, ◌∷◌, Bytes, if◌then◌else◌, codes}

pub data CondState : Type 0 where
  fcond_if fcond_elif fcond_else : CondState

pub record Condition : Type 0 where
  pub state : CondState
  pub parent_inactive : Bool
  pub branch_taken : Bool
  pub startpos : Position
  pub elsepos : Option Position

-- The messages that the preprocessor reports here, without their parameters.
pub data Diag : Type 0 where
  elcond_without_if elcond_after_else cond_wrong_include cond_id_missing ns_name_expected : Diag
  dot_missing_after_ns id_expected_after endif_without_if else_without_if multiple_else : Diag
  closer_missing keyword_missing unknown_directive : Diag

pub record Preproc : Type 0 where
  pub feeder : Feeder
  pub curcond : List Condition
  pub inactive_code : Bool
  pub closer_brace : Bool
  pub start_directive : Position
  pub errors : List Diag

-- The rest of the compiler, as the conditionals see it: IsSymbolDefined with a namespace and a name,
-- `none` where it reports an error, and ParseDefineCondition, which reads an expression.
pub record Compiler : Type 0 where
  pub is_symbol_defined : Bytes → Bytes → Option Bool
  pub parse_condition : Feeder → Feeder × Option Bool

-- The second half of PreprocError2, which tries to recover.
unfoldable pub recover : Bool → Feeder → Feeder
recover true f =
    let (g, found) = read_to_char b'{' f in
    let closed = (check_symbol (codes "}") true g).0 in if found then closed else g
recover false f =
    let (g, found) = read_to (codes "\r\n") f in
    let next = skip_spaces true g in if found then next else g

-- PreprocError2, with atryrecover at its default.
unfoldable pub preproc_error : Diag → Preproc → Preproc
unfolding recover
preproc_error d p = record p { errors = d ∷ p.errors; feeder = recover p.closer_brace p.feeder }

unfoldable pub find_directive_end : Preproc → Preproc × Bool
unfolding preproc_error
find_directive_end p =
    let spaced = skip_spaces true p.feeder in
    let (after, closed) = check_symbol (codes "}") true spaced in
    let (line, found) = read_to (codes "\r\n") p.feeder in
    let next = skip_spaces true line in
    if p.closer_brace
    then (if not closed
        then (preproc_error closer_missing (record p { feeder = after }), false)
        else (record p { feeder = after }, true))
    else (record p { feeder = if found then next else line }, true)
