-- ===== src/Preproc/Directives.antt =====
-- ReadConditionalSymbol and CheckConditionals: the conditional directives as they are read from the
-- text. What the symbols and the conditions mean is the compiler's part.
use dq_lang.Feeder.Scan.{skip_spaces}
use dq_lang.Feeder.State.{Feeder}
use dq_lang.Feeder.Tokens.{check_symbol, read_identifier}
use dq_lang.Preproc.Branches.{
  start_conditional_branch, apply_conditional_result, continue_conditional_branch, else_branch,
  endif_branch,
}
use dq_lang.Preproc.State.{
  Preproc, Compiler, cond_id_missing, ns_name_expected, dot_missing_after_ns, id_expected_after,
  preproc_error, find_directive_end,
}
use dq_lang.Prelude.{
  Bool, true, false, not, ◌||◌, Option, none, some, [], Bytes, if◌then◌else◌, codes, same_text,
}

-- A symbol with its namespace; `none` where an error was reported.
abbrev pub Symbol : Type 0
Symbol = Bytes × Bytes

abbrev pub at_feeder : Preproc → Feeder → Preproc
at_feeder p f = record p { feeder = f }

-- The name behind a namespace, or an error.
unfoldable pub read_name : Bytes → Preproc → Preproc × Option Symbol
unfolding preproc_error
read_name namespace p =
    let (f, id) = read_identifier true p.feeder in
    elim id [
      | some name ↦ (at_feeder p f, some (namespace, name))
      | none ↦ (preproc_error id_expected_after (at_feeder p f), none)
    ]

-- Behind `@`: `..`, `.`, or a namespace's name and a dot.
unfoldable pub read_namespace : Preproc → Preproc × Option Symbol
unfolding read_name
read_namespace p =
    let (f, up) = check_symbol (codes "..") true p.feeder in
    let (g, here) = check_symbol (codes ".") true f in
    let (h, id) = read_identifier true g in
    let (k, dot) = check_symbol (codes ".") true h in
    if up
    then read_name (codes "..") (at_feeder p f)
    else if here
    then read_name (codes ".") (at_feeder p g)
    else elim id [
      | none ↦ (preproc_error ns_name_expected (at_feeder p h), none)
      | some namespace ↦
          if dot
          then read_name namespace (at_feeder p k)
          else (preproc_error dot_missing_after_ns (at_feeder p k), none)
    ]

unfoldable pub read_conditional_symbol : Preproc → Preproc × Option Symbol
unfolding read_namespace
read_conditional_symbol p =
    let f = skip_spaces true p.feeder in
    let (g, qualified) = check_symbol (codes "@") true f in
    let (h, id) = read_identifier true g in
    if qualified then read_namespace (at_feeder p g) else elim id [
      | some name ↦ (at_feeder p h, some ([], name))
      | none ↦ (preproc_error cond_id_missing (at_feeder p h), none)
    ]

abbrev pub set_inactive : Preproc → Preproc
set_inactive p = record p { inactive_code = true }

-- `defined` of the symbol, as the directive asks for it or for its absence.
unfoldable pub apply_defined : Bool → Option Bool → Preproc → Preproc
unfolding apply_conditional_result
apply_defined wanted none p = set_inactive p
apply_defined wanted (some isdefined) p =
    apply_conditional_result (if wanted then isdefined else not isdefined) p

module _ (c : Compiler) where
  -- The test of a symbol, in active code.
  unfoldable pub test_symbol : Bool → Option Symbol → Bool → Preproc → Preproc
  unfolding apply_defined
  test_symbol wanted none active p = set_inactive p
  test_symbol wanted (some (namespace, name)) active p =
      if active then apply_defined wanted (c.is_symbol_defined namespace name) p else p

  -- The condition of `if` and `elif`: a failed one counts as false.
  unfoldable pub test_condition : Preproc → Preproc
  unfolding apply_conditional_result
  test_condition p =
      let (f, value) = c.parse_condition p.feeder in
      apply_conditional_result (elim value [ none ↦ false | some v ↦ v ]) (at_feeder p f)

  unfoldable pub do_ifdef : Bool → Preproc → Preproc
  do_ifdef wanted p =
      let (q, symbol) = read_conditional_symbol (start_conditional_branch p) in
      test_symbol wanted symbol (not q.inactive_code) q

  unfoldable pub do_if : Preproc → Preproc
  do_if p =
      let q = start_conditional_branch p in if not q.inactive_code then test_condition q else q

  unfoldable pub do_elifdef : Bool → Preproc → Preproc
  do_elifdef wanted p =
      let (q, symbol) = read_conditional_symbol p in
      let (r, active) = continue_conditional_branch q in test_symbol wanted symbol active r

  unfoldable pub do_elif : Preproc → Preproc
  do_elif p =
      let (q, active) = continue_conditional_branch p in if active then test_condition q else q

  -- The directive by its name; `none` if it is no conditional.
  unfoldable pub conditional : Bytes → Preproc → Option Preproc
  conditional id p =
      if same_text (codes "ifdef") id || same_text (codes "ifndef") id
      then some (do_ifdef (same_text (codes "ifdef") id) p)
      else if same_text (codes "if") id
      then some (do_if p)
      else if same_text (codes "endif") id
      then some (endif_branch p)
      else if same_text (codes "else") id
      then some (else_branch p)
      else if same_text (codes "elifdef") id || same_text (codes "elifndef") id
      then some (do_elifdef (same_text (codes "elifdef") id) p)
      else if same_text (codes "elif") id
      then some (do_elif p)
      else none

  unfoldable pub check_conditionals : Bytes → Preproc → Preproc × Bool
  unfolding conditional
  check_conditionals id p = elim (conditional id p) [
    | none ↦ (p, false)
    | some q ↦ ((find_directive_end q).0, true)
  ]
