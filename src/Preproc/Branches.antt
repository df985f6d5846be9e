-- ===== src/Preproc/Branches.antt =====
-- What a conditional directive does to the chain of conditions: StartConditionalBranch,
-- ApplyConditionalResult, ContinueConditionalBranch, and the `else` and `endif` parts of
-- CheckConditionals.
use dq_lang.Preproc.State.{
  CondState, fcond_if, fcond_elif, fcond_else, Condition, Preproc, elcond_without_if,
  elcond_after_else, cond_wrong_include, endif_without_if, else_without_if, multiple_else,
  preproc_error,
}
use dq_lang.Prelude.{Bool, true, false, not, ◌||◌, none, some, List, [], ◌∷◌, ◌==◌, if◌then◌else◌}

-- new OScfCondition(curcond, scpos_start_directive, inactive)
abbrev pub new_condition : Preproc → Bool → Condition
new_condition p inactive = record {
  state = fcond_if;
  parent_inactive = inactive;
  branch_taken = false;
  startpos = p.start_directive;
  elsepos = none;
}

unfoldable pub start_conditional_branch : Preproc → Preproc
start_conditional_branch p = record p { curcond = new_condition p p.inactive_code ∷ p.curcond }

abbrev pub take_branch : List Condition → List Condition
take_branch [] = []
take_branch (c ∷ cs) = record c { branch_taken = true } ∷ cs

unfoldable pub apply_conditional_result : Bool → Preproc → Preproc
apply_conditional_result condition p =
    if not p.inactive_code
    then (if condition
        then record p { curcond = take_branch p.curcond }
        else record p { inactive_code = true })
    else p

-- curcond->startpos.scfile != curfile
abbrev pub other_file : Condition → Preproc → Bool
other_file c p = not (c.startpos.scfile.index == p.feeder.file.index)

abbrev pub is_else : CondState → Bool
is_else fcond_else = true
is_else _ = false

abbrev pub set_state : CondState → List Condition → List Condition
set_state s [] = []
set_state s (c ∷ cs) = record c { state = s } ∷ cs

-- The wrong include: an error, and a new condition on top of the chain.
unfoldable pub wrong_include : Preproc → Preproc
wrong_include p =
    let q = preproc_error cond_wrong_include p in
    record q { curcond = new_condition q q.inactive_code ∷ q.curcond; inactive_code = true }

-- ContinueConditionalBranch at an open condition.
unfoldable pub continue_condition : Condition → Preproc → Preproc × Bool
unfolding wrong_include
continue_condition c p =
    let restored = record p { inactive_code = c.parent_inactive || c.branch_taken } in
    let q = if other_file c p then wrong_include restored else restored in
    if is_else c.state
    then (record (preproc_error elcond_after_else p) { inactive_code = true }, false)
    else (record q { curcond = set_state fcond_elif q.curcond }, not q.inactive_code)

-- The chain at hand: the innermost condition, if one is open.
abbrev pub innermost {ℓ} : {A : Type ℓ} → List Condition → A → (Condition → A) → A
innermost [] nothing something = nothing
innermost (c ∷ cs) nothing something = something c

unfoldable pub continue_conditional_branch : Preproc → Preproc × Bool
unfolding continue_condition
continue_conditional_branch p =
    innermost p.curcond (record (preproc_error elcond_without_if p) { inactive_code = true }, false)
      (λ c. continue_condition c p)

abbrev pub enter_else : Preproc → List Condition → List Condition
enter_else p [] = []
enter_else p (c ∷ cs) = record c { state = fcond_else; elsepos = some p.start_directive } ∷ cs

abbrev pub top_taken : List Condition → Bool
top_taken [] = false
top_taken (c ∷ cs) = c.branch_taken

unfoldable pub else_condition : Condition → Preproc → Preproc
unfolding wrong_include
else_condition c p =
    let restored = record p { inactive_code = c.parent_inactive } in
    let q = if other_file c p then wrong_include restored else restored in
    if is_else c.state then preproc_error multiple_else p else record q {
      curcond = enter_else q q.curcond;
      inactive_code = q.inactive_code || top_taken q.curcond;
    }

-- The `else` part of CheckConditionals.
unfoldable pub else_branch : Preproc → Preproc
unfolding else_condition
else_branch p = innermost p.curcond (preproc_error else_without_if p) (λ c. else_condition c p)

abbrev pub pop_condition : List Condition → List Condition
pop_condition [] = []
pop_condition (c ∷ cs) = cs

unfoldable pub endif_condition : Condition → Preproc → Preproc
endif_condition c p =
    let q = if other_file c p then preproc_error cond_wrong_include p else p in
    record q { inactive_code = c.parent_inactive; curcond = pop_condition q.curcond }

-- The `endif` part of CheckConditionals.
unfoldable pub endif_branch : Preproc → Preproc
unfolding endif_condition
endif_branch p = innermost p.curcond (preproc_error endif_without_if p) (λ c. endif_condition c p)
