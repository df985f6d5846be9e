-- ===== src/Scopes/Uses.antt =====
-- The marks and the scopes of methods' uses: MethodUse...Visible, AddMethodUseScope and
-- AddMethodUseRootScopes.
use dq_lang.Prelude.{
  ℕ, Bool, true, false, ◌||◌, Option, none, some, List, [], ◌∷◌, ◌++◌, Bytes, same_text, ◌==◌,
  if◌then◌else◌,
}
use dq_lang.Scopes.State.{UseScope, Scope}
use dq_lang.Scopes.Lookup.{is_stop}

abbrev pub contains : List Bytes → Bytes → Bool
contains [] n = false
contains (k ∷ ks) n = same_text k n || contains ks n

-- The three loops that look for a mark up to the scope astop_scope.
unfoldable pub visible_in : (Scope → Bool) → Option ℕ → List Scope → Bool
visible_in mark stop [] = false
visible_in mark stop (s ∷ parents) =
    let later = visible_in mark stop parents in
    if mark s then true else if is_stop stop s then false else later

unfoldable pub method_use_alias_visible : Bytes → Option ℕ → List Scope → Bool
unfolding visible_in
method_use_alias_visible name stop chain =
    visible_in (λ s. contains s.method_use_aliases name) stop chain

unfoldable pub method_use_dot_visible : Option ℕ → List Scope → Bool
unfolding visible_in
method_use_dot_visible stop chain = visible_in (λ s. s.method_use_dot) stop chain

unfoldable pub method_use_star_visible : Option ℕ → List Scope → Bool
unfolding visible_in
method_use_star_visible stop chain = visible_in (λ s. s.method_use_star) stop chain

-- A pointer to a scope, compared by its address.
abbrev pub points_to : ℕ → Option UseScope → Bool
points_to i none = false
points_to i (some u) = u.id == i

abbrev pub has_use : List (Option UseScope) → ℕ → Bool
has_use [] i = false
has_use (u ∷ us) i = points_to i u || has_use us i

unfoldable pub add_method_use_scope :
    List (Option UseScope) → Option UseScope → List (Option UseScope)
add_method_use_scope uses none = uses
add_method_use_scope uses (some u) = if has_use uses u.id then uses else uses ++ some u ∷ []

abbrev pub as_use : Scope → UseScope
as_use s = record { id = s.id; valsyms = s.valsyms }

unfoldable pub add_method_use_root_scopes :
    List (Option UseScope) → List Scope → List (Option UseScope)
unfolding add_method_use_scope
add_method_use_root_scopes uses [] = uses
add_method_use_root_scopes uses (s ∷ parents) =
    let added = add_method_use_scope uses (some (as_use s)) in
    elim s.vs_lookup_parent [ false ↦ added | true ↦ add_method_use_root_scopes added parents ]
