-- ===== src/Scopes/AssignedLaws.antt =====
-- RevertFirstAssignments undoes a run of SetVarInitialized.
use dq_lang.Prelude.{
  ℕ, ◌≡◌, refl, true, false, not, ◌&&◌, List, [], ◌∷◌, ◌++◌, ◌==◌, if◌then◌else◌, ◌||◌, arith, set,
  ap, ◌∙◌, inl, inr, ==_iff, Bool-cases,
}
use dq_lang.Scopes.State.{Scope}
use dq_lang.Scopes.Assigned.{
  Flags, assign, set_var_initialized, revert_loop, revert_first_assignments, listed, first_assigned,
}

-- A run of SetVarInitialized in one scope.
unfoldable pub assign_all : Scope → Flags → List ℕ → Scope × Flags
unfolding set_var_initialized
assign_all s flags [] = (s, flags)
assign_all s flags (v ∷ vs) =
    assign_all (set_var_initialized s flags v).0 (set_var_initialized s flags v).1 vs

revert_loop_lem :
    (vs : List ℕ) (flags : Flags) (x : ℕ)
    → revert_loop vs flags x ≡ (if listed vs x then false else flags x)
unfolding revert_loop listed
revert_loop_lem [] flags x = refl
revert_loop_lem (v ∷ vs) flags x = ground (arith, revert_loop_lem vs (assign flags v false) x)

listed-append : (vs : List ℕ) (v x : ℕ) → listed (vs ++ v ∷ []) x ≡ listed vs x || x == v
unfolding listed
listed-append [] v x = ground arith
listed-append (w ∷ vs) v x = ground (arith, listed-append vs v x)

-- One step: what reverting gives, what the scope lists, and which variables are initialized.
set_var_initialized_step :
    (s : Scope) (flags : Flags) (v x : ℕ)
    → let (s', flags') = set_var_initialized s flags v in
      (revert_first_assignments s' flags' x ≡ revert_first_assignments s flags x)
      × (first_assigned s' x ≡ first_assigned s x || (x == v && not (flags x)))
      × (flags' x ≡ flags x || x == v)
unfolding set_var_initialized revert_first_assignments first_assigned
set_var_initialized_step s flags v x =
    let reverts = λ (vs : List ℕ) (f : Flags). revert_loop_lem vs f x in
    let one = listed-append s.firstassign v x in
    let before = reverts s.firstassign flags in
    let after = reverts (s.firstassign ++ v ∷ []) (assign flags v true) in
    elim (Bool-cases (x == v)) [
      | inl e ↦
          let same : flags x ≡ flags v = ap flags ((==_iff x v).0 e) in
          ground (arith, one, before, after, same, e)
      | inr e ↦ ground (arith, one, before, after, e)
    ]

-- After a run of SetVarInitialized a variable is initialized if it was or stands in the run, the scope
-- lists it as first assigned exactly if it did before or it stands in the run and was not initialized,
-- and RevertFirstAssignments gives each variable the flag that it would have given before the run.
pub assign_all_lem :
    (s : Scope) (flags : Flags) (vs : List ℕ) (x : ℕ)
    → let (s', flags') = assign_all s flags vs in
      (revert_first_assignments s' flags' x ≡ revert_first_assignments s flags x)
      × (first_assigned s' x ≡ first_assigned s x || (listed vs x && not (flags x)))
      × (flags' x ≡ flags x || listed vs x)
unfolding assign_all listed
assign_all_lem s flags [] x = ground arith
assign_all_lem s flags (v ∷ vs) x =
    let (s', flags') = set_var_initialized s flags v in
    let (back, list, set) = set_var_initialized_step s flags v x in
    let (back', list', set') = assign_all_lem s' flags' vs x in
    (back' ∙ back, ground (arith, list, list', set), ground (arith, set, set'))

-- If the scope lists no variable, RevertFirstAssignments after a run of SetVarInitialized restores the
-- flags of all variables.
pub revert_first_assignments-assign_all :
    (s : Scope) (flags : Flags) (vs : List ℕ) (x : ℕ)
    → s.firstassign ≡ []
    → let (s', flags') = assign_all s flags vs in revert_first_assignments s' flags' x ≡ flags x
unfolding revert_first_assignments revert_loop
revert_first_assignments-assign_all s flags vs x none_yet =
    let (back, list, set) = assign_all_lem s flags vs x in
    back ∙ ap (λ (l : List ℕ). revert_loop l flags x) none_yet
