-- ===== src/Tests/Blocks.antt =====
-- The conditional directives: compiler/parser/scf_dq.cpp.
use dq_lang.Feeder.Scan.{skip_spaces}
use dq_lang.Feeder.State.{Feeder}
use dq_lang.Feeder.Tokens.{check_symbol}
use dq_lang.Preproc.Blocks.{run-selected}
use dq_lang.Preproc.Branches.{new_condition}
use dq_lang.Preproc.Directives.{check_conditionals}
use dq_lang.Preproc.Items.{Items, done, text, group, elif, else_part, selected, run}
use dq_lang.Preproc.Recovery.{recover_brace, elif-Taken_brace}
use dq_lang.Preproc.State.{Preproc, Compiler, closer_missing, recover}
use dq_lang.Prelude.{◌≡◌, refl, Bool, true, false, none, some, [], ◌∷◌, arith, Bytes, codes}

abbrev feeder_of : Bytes → Feeder
feeder_of body = record {
  file = record { index = 1; body = body };
  curp = 0;
  prevp = 0;
  prevlen = 0;
  curline = 1;
  curcol = 1;
  clstart = 0;
  prevpos = none;
  last_token_end_line = 0;
}

abbrev active_at : Bytes → Preproc
active_at body = record {
  feeder = feeder_of body;
  curcond = [];
  inactive_code = false;
  closer_brace = true;
  start_directive = record {
    scfile = record { index = 1; body = body };
    pos = 0;
    line = 1;
    col = 1;
  };
  errors = [];
}

abbrev inactive_at : Bytes → Preproc
inactive_at body = record (active_at body) { inactive_code = true }

-- Every symbol is defined, and every condition is the given value, without any text.
abbrev compiler_of : Bool → Compiler
compiler_of v = record {
  is_symbol_defined = λ namespace name. some true;
  parse_condition = λ f. (f, some v);
}

-- A block with an inner block in its `elif` branch.
abbrev inner : Items
inner = group true (text 3 done) (else_part (text 4 done)) (text 5 done)

abbrev items : Items
items = text 1 (group false (text 2 done) (elif true inner (else_part (text 6 done))) (text 7 done))

selected-items : selected items ≡ 1 ∷ 3 ∷ 5 ∷ 7 ∷ []
unfolding selected
selected-items = refl

run-selected_example : run items (active_at [], 0 ∷ []) ≡ (active_at [], 0 ∷ 1 ∷ 3 ∷ 5 ∷ 7 ∷ [])
unfolding selected
run-selected_example = run-selected items (active_at []) (0 ∷ []) refl refl

recover_brace_example : (recover true (feeder_of (codes " x} y"))).curp ≡ 5
recover_brace_example = recover_brace (feeder_of (codes " x} y")) (ground arith)

abbrev in_taken : Preproc
in_taken = record (active_at (codes " 1 > 2}")) {
  curcond = record (new_condition (active_at (codes " 1 > 2}")) false) { branch_taken = true } ∷ [];
}

elif-Taken_brace_example :
    (check_conditionals (compiler_of true) (codes "elif") in_taken).0.errors ≡ closer_missing ∷ []
unfolding skip_spaces
elif-Taken_brace_example =
    elif-Taken_brace (compiler_of true) in_taken
      (record {
        condition = record (new_condition (active_at (codes " 1 > 2}")) false) {
          branch_taken = true;
        };
        outer = [];
        innermost = refl;
        taken = refl;
        same_file = refl;
        before_else = refl;
      })
      refl (unfold check_symbol in refl)
