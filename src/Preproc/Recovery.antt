-- ===== src/Preproc/Recovery.antt =====
-- Inactive code, and what the error handling of the preprocessor skips.
use dq_lang.Feeder.Scan.{skip_spaces, has_char, read_to_loop, read_to_char}
use dq_lang.Feeder.State.{Feeder, Cursor, unread, cursor, advance}
use dq_lang.Feeder.Tokens.{check_symbol}
use dq_lang.Preproc.Branches.{
  start_conditional_branch, continue_conditional_branch, other_file, is_else,
}
use dq_lang.Preproc.Directives.{
  read_conditional_symbol, test_symbol, do_ifdef, do_if, do_elif, check_conditionals,
}
use dq_lang.Preproc.State.{
  Condition, Preproc, Compiler, closer_missing, recover, find_directive_end,
}
use dq_lang.Prelude.{
  ℕ, ◌+◌, ◌≡◌, ◌≢◌, refl, Bool, true, false, List, [], ◌∷◌, arith, Bytes, length, All, codes,
}

read_to_loop_absent :
    (c : ℕ) (text : Bytes) (k : Cursor)
    → All (λ x. x ≢ c) text
    → ((read_to_loop (c ∷ []) text k).1 ≡ false)
      × ((read_to_loop (c ∷ []) text k).0.p ≡ k.p + length text)
unfolding read_to_loop has_char
read_to_loop_absent c [] k h = (refl, omega arith)
read_to_loop_absent c (x ∷ xs) k (hx, h) = ground (arith, read_to_loop_absent c xs (advance x k) h)

-- After an error in a directive with braces the recovery looks for an opening brace: where none
-- follows, everything up to the end of the file is skipped, a closing brace too.
pub recover_brace :
    (f : Feeder)
    → All (λ x. x ≢ b'{') (unread f)
    → (recover true f).curp ≡ f.curp + length (unread f)
unfolding recover read_to_char
recover_brace f h =
    let (missed, at_end) = read_to_loop_absent b'{' (unread f) (cursor f) h in rw missed at_end

-- Reading a symbol, with its errors, leaves the active state alone.
read_conditional_symbol-inactive :
    (p : Preproc) → (read_conditional_symbol p).0.inactive_code ≡ p.inactive_code
unfolding read_conditional_symbol
read_conditional_symbol-inactive p = ground arith

do_ifdef_inactive :
    (c c' : Compiler) (wanted : Bool) (p : Preproc)
    → p.inactive_code ≡ true
    → do_ifdef c wanted p ≡ do_ifdef c' wanted p
unfolding do_ifdef test_symbol start_conditional_branch
do_ifdef_inactive c c' wanted p off =
    ground (arith, read_conditional_symbol-inactive (start_conditional_branch p))

-- In inactive code the start of a conditional block asks the compiler for nothing: no symbol is
-- looked up and no condition is read.
pub start_inactive :
    (c c' : Compiler) (p : Preproc) (wanted : Bool)
    → p.inactive_code ≡ true
    → (do_ifdef c wanted p ≡ do_ifdef c' wanted p) × (do_if c p ≡ do_if c' p)
unfolding do_if start_conditional_branch
start_inactive c c' p wanted off = (do_ifdef_inactive c c' wanted p off, ground arith)

-- An open condition of the current file whose branch was taken.
pub record Taken (p : Preproc) : Type 0 where
  pub condition : Condition
  pub outer : List Condition
  pub innermost : p.curcond ≡ condition ∷ outer
  pub taken : condition.branch_taken ≡ true
  pub same_file : other_file condition p ≡ false
  pub before_else : is_else condition.state ≡ false

-- `#elif` behind a branch that was taken makes the code inactive and does not move in the text.
elif-Taken :
    (c : Compiler) (p : Preproc)
    → Taken p
    → ((do_elif c p).inactive_code ≡ true)
      × ((do_elif c p).feeder ≡ p.feeder)
      × ((do_elif c p).errors ≡ p.errors)
      × ((do_elif c p).closer_brace ≡ p.closer_brace)
unfolding do_elif continue_conditional_branch
elif-Taken c p t = rw (t.innermost) (ground arith)

-- `#{elif condition}` behind a taken branch of the current file, before any else part: the condition
-- is not read, so anything but the closing brace there is reported as an error.
pub elif-Taken_brace :
    (c : Compiler) (p : Preproc)
    → Taken p
    → p.closer_brace ≡ true
    → (check_symbol (codes "}") true (skip_spaces true p.feeder)).1 ≡ false
    → (check_conditionals c (codes "elif") p).0.errors ≡ closer_missing ∷ p.errors
unfolding check_conditionals find_directive_end
elif-Taken_brace c p t brace other =
    let (off, feeder, errors, closer) = elif-Taken c p t in ground arith
