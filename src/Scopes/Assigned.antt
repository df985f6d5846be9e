-- ===== src/Scopes/Assigned.antt =====
-- The variables that a scope assigns first: SetVarInitialized, RevertFirstAssignments, FirstAssigned.
use dq_lang.Prelude.{ℕ, Bool, true, false, not, List, [], ◌∷◌, ◌++◌, ◌==◌, if◌then◌else◌}
use dq_lang.Scopes.State.{Scope}

-- The flags `initialized` of the variables, which all scopes share.
abbrev pub Flags : Type 0
Flags = ℕ → Bool

abbrev pub assign : Flags → ℕ → Bool → Flags
assign flags v b = λ x. if x == v then b else flags x

unfoldable pub set_var_initialized : Scope → Flags → ℕ → Scope × Flags
set_var_initialized s flags v =
    if not (flags v)
    then (record s { firstassign = s.firstassign ++ v ∷ [] }, assign flags v true)
    else (s, flags)

unfoldable pub revert_loop : List ℕ → Flags → Flags
revert_loop [] flags = flags
revert_loop (v ∷ vs) flags = revert_loop vs (assign flags v false)

-- The list of the scope stays as it is.
unfoldable pub revert_first_assignments : Scope → Flags → Flags
unfolding revert_loop
revert_first_assignments s flags = revert_loop s.firstassign flags

unfoldable pub listed : List ℕ → ℕ → Bool
listed [] x = false
listed (v ∷ vs) x = let later = listed vs x in if x == v then true else later

unfoldable pub first_assigned : Scope → ℕ → Bool
unfolding listed
first_assigned s x = listed s.firstassign x
