-- ===== src/Preproc/Steps.antt =====
-- The conditional directives, with the condition as the compiler reads it, are the steps of a run.
use dq_lang.Preproc.Branches.{
  start_conditional_branch, apply_conditional_result, continue_conditional_branch,
}
use dq_lang.Preproc.Directives.{at_feeder, conditional, do_if, do_elif, test_condition}
use dq_lang.Preproc.Items.{if_directive, elif_directive}
use dq_lang.Preproc.State.{Preproc, Compiler}
use dq_lang.Prelude.{◌≡◌, Bool, true, false, none, some, arith, codes, if◌then◌else◌}

-- The condition behind the cursor: what ParseDefineCondition returns, false after an error.
abbrev pub condition_value : Compiler → Preproc → Bool
condition_value c p = elim (c.parse_condition p.feeder).1 [ none ↦ false | some v ↦ v ]

abbrev pub behind_condition : Compiler → Preproc → Preproc
behind_condition c p = at_feeder p (c.parse_condition p.feeder).0

-- In active code `#if` reads its condition and takes the step with its value.
pub conditional-if :
    (c : Compiler) (p : Preproc)
    → p.inactive_code ≡ false
    → conditional c (codes "if") p
      ≡ some (if_directive (condition_value c p) (behind_condition c p))
unfolding conditional do_if test_condition start_conditional_branch apply_conditional_result
conditional-if c p active = ground arith

-- `#elif` reads its condition, and takes the step with its value, exactly if
-- ContinueConditionalBranch says that the branch is to be considered; else it takes the step without
-- reading.
pub conditional-elif :
    (c : Compiler) (p : Preproc)
    → let (q, active) = continue_conditional_branch p in
      conditional c (codes "elif") p
      ≡ some (
          if active
          then at_feeder (elif_directive (condition_value c q) p) (behind_condition c q).feeder
          else elif_directive false p)
unfolding conditional do_elif test_condition apply_conditional_result
conditional-elif c p = ground arith

-- In inactive code `#if` reads nothing and takes the step as well.
pub conditional-if_inactive :
    (c : Compiler) (p : Preproc) (b : Bool)
    → p.inactive_code ≡ true
    → conditional c (codes "if") p ≡ some (if_directive b p)
unfolding conditional do_if start_conditional_branch apply_conditional_result
conditional-if_inactive c p b off = ground arith
