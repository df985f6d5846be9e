-- ===== src/Preproc/Items.antt =====
-- Source text with nested conditional blocks, what its conditions select, and the run of its
-- directives in the order in which CheckConditionals meets them.
use dq_lang.Preproc.Branches.{
  start_conditional_branch, apply_conditional_result, continue_conditional_branch, else_branch,
  endif_branch,
}
use dq_lang.Preproc.State.{Preproc}
use dq_lang.Prelude.{ℕ, Bool, List, [], ◌∷◌, ◌++◌, if◌then◌else◌}

-- Source text with conditional blocks; a text is a number, and a condition is its value.
mutual
  pub data Items : Type 0 where
    done : Items
    text : ℕ → Items → Items
    group : Bool → Items → Tail → Items → Items

  pub data Tail : Type 0 where
    endif : Tail
    elif : Bool → Items → Tail → Tail
    else_part : Items → Tail

-- The texts that are selected.
unfoldable mutual
  pub selected : Items → List ℕ
  selected done = []
  selected (text n later) = n ∷ selected later
  selected (group c body tail later) =
      (if c then selected body else selected_tail tail) ++ selected later

  pub selected_tail : Tail → List ℕ
  selected_tail endif = []
  selected_tail (elif c body tail) = if c then selected body else selected_tail tail
  selected_tail (else_part body) = selected body

-- What the preprocessor lets through: its state and the active texts so far.
abbrev pub Output : Type 0
Output = Preproc × List ℕ

abbrev pub emit : ℕ → Output → Output
emit n (p, out) = (p, if p.inactive_code then out else out ++ n ∷ [])

abbrev pub on_state : (Preproc → Preproc) → Output → Output
on_state f (p, out) = (f p, out)

-- `#elif` with a condition that is only read in an active branch.
abbrev pub elif_directive : Bool → Preproc → Preproc
elif_directive c p =
    let (q, active) = continue_conditional_branch p in
    if active then apply_conditional_result c q else q

abbrev pub if_directive : Bool → Preproc → Preproc
if_directive c p = apply_conditional_result c (start_conditional_branch p)

-- The directives of the blocks in order, as CheckConditionals carries them out.
unfoldable mutual
  pub run : Items → Output → Output
  run done o = o
  run (text n later) o = run later (emit n o)
  run (group c body tail later) o =
      run later (run_tail tail (run body (on_state (if_directive c) o)))

  pub run_tail : Tail → Output → Output
  run_tail endif o = on_state endif_branch o
  run_tail (elif c body tail) o = run_tail tail (run body (on_state (elif_directive c) o))
  run_tail (else_part body) o = on_state endif_branch (run body (on_state else_branch o))
