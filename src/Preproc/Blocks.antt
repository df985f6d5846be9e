-- ===== src/Preproc/Blocks.antt =====
-- Nested conditional blocks against their meaning: the text of a branch is active exactly if the
-- conditions select it.
use dq_lang.Feeder.State.{Position}
use dq_lang.Preproc.Branches.{
  start_conditional_branch, apply_conditional_result, continue_conditional_branch, else_branch,
  endif_branch, new_condition,
}
use dq_lang.Preproc.State.{Condition, Preproc, fcond_if, fcond_elif, fcond_else, CondState}
use dq_lang.Prelude.{
  ℕ, ◌≡◌, refl, sym, ◌∙◌, ap, Bool, true, false, not, ◌&&◌, ◌||◌, some, List, [], ◌∷◌, ◌++◌,
  append_assoc, append-nil, arith, ◌==◌, if◌then◌else◌,
}
use dq_lang.Preproc.Items.{
  Items, done, text, group, Tail, endif, elif, else_part, selected, selected_tail, on_state,
  elif_directive, if_directive, run, run_tail,
}

-- The directives stand in the file that is being read, and no include changes it inside a block.
abbrev pub InFile : Preproc → Type 0
InFile p = (p.start_directive.scfile.index == p.feeder.file.index) ≡ true

abbrev pub at : Preproc → List Condition → Bool → Preproc
at p conditions inactive = record p { curcond = conditions; inactive_code = inactive }

if_directive-at :
    (p : Preproc) (cs : List Condition) (inactive c : Bool)
    → if_directive c (at p cs inactive)
      ≡ at p
          (record (new_condition p inactive) { branch_taken = not inactive && c } ∷ cs)
          (inactive || not c)
unfolding start_conditional_branch apply_conditional_result
if_directive-at p cs inactive c = ground arith

abbrev IsOpen : CondState → Type 0
IsOpen fcond_if = Unit
IsOpen fcond_elif = Unit
IsOpen _ = ⊥

elif_directive-at :
    (p : Preproc) (cs : List Condition) (o : Condition) (inactive c : Bool)
    → (o.startpos.scfile.index == p.feeder.file.index) ≡ true
    → IsOpen o.state
    → elif_directive c (at p (o ∷ cs) inactive)
      ≡ at p
          (record o {
            state = fcond_elif;
            branch_taken = o.branch_taken || not o.parent_inactive && c;
          }
            ∷ cs)
          (o.parent_inactive || o.branch_taken || not c)
unfolding continue_conditional_branch apply_conditional_result
elif_directive-at p cs o inactive c same open_yet = ground arith

endif_branch-at :
    (p : Preproc) (cs : List Condition) (o : Condition) (inactive : Bool)
    → (o.startpos.scfile.index == p.feeder.file.index) ≡ true
    → endif_branch (at p (o ∷ cs) inactive) ≡ at p cs o.parent_inactive
unfolding endif_branch
endif_branch-at p cs o inactive same = ground arith

else_branch-at :
    (p : Preproc) (cs : List Condition) (o : Condition) (inactive : Bool)
    → (o.startpos.scfile.index == p.feeder.file.index) ≡ true
    → IsOpen o.state
    → (o' : Condition) × (else_branch (at p (o ∷ cs) inactive)
        ≡ at p (o' ∷ cs) (o.parent_inactive || o.branch_taken))
      × (o'.parent_inactive ≡ o.parent_inactive)
      × (o'.startpos ≡ o.startpos)
unfolding else_branch
else_branch-at p cs o inactive same open_yet =
    (record o { state = fcond_else; elsepos = some p.start_directive }, ground arith, refl, refl)

-- What is let through of some texts in a state.
abbrev pub visible : Bool → List ℕ → List ℕ
visible true texts = []
visible false texts = texts

visible-append :
    (inactive : Bool) (xs ys out : List ℕ)
    → (out ++ visible inactive xs) ++ visible inactive ys ≡ out ++ visible inactive (xs ++ ys)
visible-append true xs ys out = simp (append-nil)
visible-append false xs ys out = append_assoc out xs ys

-- The texts of a group: its body if the condition holds, and else what the tail selects.
visible_group :
    (inactive c : Bool) (xs ys out : List ℕ)
    → (out ++ visible (inactive || not c) xs) ++ visible (inactive || not inactive && c) ys
      ≡ out ++ visible inactive (if c then xs else ys)
visible_group true c xs ys out = simp (append-nil)
visible_group false true xs ys out = simp (append-nil)
visible_group false false xs ys out = simp (append-nil)

visible_elif :
    (parent taken c : Bool) (xs ys out : List ℕ)
    → (out ++ visible (parent || taken || not c) xs)
        ++ visible (parent || (taken || not parent && c)) ys
      ≡ out ++ visible (parent || taken) (if c then xs else ys)
visible_elif true taken c xs ys out = simp (append-nil)
visible_elif false true c xs ys out = simp (append-nil)
visible_elif false false true xs ys out = simp (append-nil)
visible_elif false false false xs ys out = simp (append-nil)

visible_text :
    (inactive : Bool) (n : ℕ) (xs out : List ℕ)
    → (if inactive then out else out ++ n ∷ []) ++ visible inactive xs
      ≡ out ++ visible inactive (n ∷ xs)
visible_text true n xs out = refl
visible_text false n xs out = append_assoc out (n ∷ []) xs

visible_nil : (inactive : Bool) (out : List ℕ) → out ++ visible inactive [] ≡ out
visible_nil true out = append-nil out
visible_nil false out = append-nil out

mutual
  unfolding run selected

  run_lem :
      (items : Items) (p : Preproc) (cs : List Condition) (inactive : Bool) (out : List ℕ)
      → InFile p
      → run items (at p cs inactive, out)
        ≡ (at p cs inactive, out ++ visible inactive (selected items))
  run_lem done p cs inactive out same =
      ap (λ l. (at p cs inactive, l)) (sym (visible_nil inactive out))
  run_lem (text n later) p cs inactive out same =
      run_lem later p cs inactive (if inactive then out else out ++ n ∷ []) same
      ∙ ap (λ l. (at p cs inactive, l)) (visible_text inactive n (selected later) out)
  run_lem (group c body tail later) p cs inactive out same =
      let o : Condition = record (new_condition p inactive) { branch_taken = not inactive && c } in
      let out' = out ++ visible (inactive || not c) (selected body) in
      let chosen = if c then selected body else selected_tail tail in
      ap (λ q. run later (run_tail tail (run body (q, out)))) (if_directive-at p cs inactive c)
      ∙ ap (λ q. run later (run_tail tail q)) (run_lem body p (o ∷ cs) (inactive || not c) out same)
      ∙ ap (run later) (run_tail_lem tail p cs o (inactive || not c) out' same same tt)
      ∙ ap (λ l. run later (at p cs inactive, l))
          (visible_group inactive c (selected body) (selected_tail tail) out)
      ∙ run_lem later p cs inactive (out ++ visible inactive chosen) same
      ∙ ap (λ l. (at p cs inactive, l)) (visible-append inactive chosen (selected later) out)

  run_tail_lem :
      (tail : Tail) (p : Preproc) (cs : List Condition) (o : Condition) (inactive : Bool)
      (out : List ℕ)
      → InFile p
      → (o.startpos.scfile.index == p.feeder.file.index) ≡ true
      → IsOpen o.state
      → run_tail tail (at p (o ∷ cs) inactive, out) ≡ (
        at p cs o.parent_inactive,
        out ++ visible (o.parent_inactive || o.branch_taken) (selected_tail tail),
      )
  run_tail_lem endif p cs o inactive out same here open_yet =
      ap (λ q. (q, out)) (endif_branch-at p cs o inactive here)
      ∙ ap (λ l. (at p cs o.parent_inactive, l))
          (sym (visible_nil (o.parent_inactive || o.branch_taken) out))
  run_tail_lem (elif c body tail) p cs o inactive out same here open_yet =
      let o' : Condition = record o {
        state = fcond_elif;
        branch_taken = o.branch_taken || not o.parent_inactive && c;
      } in
      let off = o.parent_inactive || o.branch_taken || not c in
      ap (λ q. run_tail tail (run body (q, out)))
        (elif_directive-at p cs o inactive c here open_yet)
      ∙ ap (run_tail tail) (run_lem body p (o' ∷ cs) off out same)
      ∙ run_tail_lem tail p cs o' off (out ++ visible off (selected body)) same here tt
      ∙ ap (λ l. (at p cs o.parent_inactive, l))
          (visible_elif o.parent_inactive o.branch_taken c (selected body) (selected_tail tail) out)
  run_tail_lem (else_part body) p cs o inactive out same here open_yet =
      let (o', entered, parent, start) = else_branch-at p cs o inactive here open_yet in
      let off = o.parent_inactive || o.branch_taken in
      ap (λ q. on_state endif_branch (run body (q, out))) entered
      ∙ ap (on_state endif_branch) (run_lem body p (o' ∷ cs) off out same)
      ∙ ap (λ q. (q, out ++ visible off (selected body)))
          (endif_branch-at p cs o' off
              (ap (λ (a : Position). a.scfile.index == p.feeder.file.index) start ∙ here)
            ∙ ap (at p cs) parent)

-- In active text of the current file, any nesting of blocks lets exactly the selected texts through,
-- in order, and leaves the state of the preprocessor as it was.
pub run-selected :
    (items : Items) (p : Preproc) (out : List ℕ)
    → InFile p
    → p.inactive_code ≡ false
    → run items (p, out) ≡ (p, out ++ selected items)
run-selected items p out same active =
    ap (λ b. run items (at p p.curcond b, out)) active
    ∙ run_lem items p p.curcond false out same
    ∙ ap (λ b. (at p p.curcond b, out ++ selected items)) (sym active)

-- In inactive text of the current file nothing of a block is let through, whatever its conditions are,
-- and the state of the preprocessor is left as it was.
pub run_inactive :
    (items : Items) (p : Preproc) (out : List ℕ)
    → InFile p
    → p.inactive_code ≡ true
    → run items (p, out) ≡ (p, out)
run_inactive items p out same off =
    ap (λ b. run items (at p p.curcond b, out)) off
    ∙ run_lem items p p.curcond true out same
    ∙ ap (λ b. (at p p.curcond b, out ++ [])) (sym off)
    ∙ ap (λ l. (p, l)) (append-nil out)
