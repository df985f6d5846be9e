-- ===== src/Scopes/UsesLaws.antt =====
-- No scope is added twice to the scopes of a method's uses.
use dq_lang.Prelude.{
  ℕ, ◌≡◌, refl, Bool, false, ◌||◌, Option, none, some, List, [], ◌∷◌, ◌++◌, ap, inl, inr, arith,
  ◌==◌, if◌then◌else◌, ==_iff, Bool-cases,
}
use dq_lang.Scopes.State.{UseScope, Scope}
use dq_lang.Scopes.Uses.{
  points_to, has_use, add_method_use_scope, as_use, add_method_use_root_scopes,
}

-- Pointers to scopes, none of them null, no two of them the same.
abbrev pub Distinct : List (Option UseScope) → Type 0
Distinct [] = Unit
Distinct (none ∷ us) = ◌≡◌ {A = ℕ} 0 1
Distinct (some u ∷ us) = (has_use us u.id ≡ false) × Distinct us

has_use-append :
    (us : List (Option UseScope)) (u : Option UseScope) (i : ℕ)
    → has_use (us ++ u ∷ []) i ≡ has_use us i || points_to i u
has_use-append [] u i = ground arith
has_use-append (v ∷ us) u i = ground (arith, has_use-append us u i)

Distinct-append :
    (us : List (Option UseScope)) (u : UseScope)
    → Distinct us
    → has_use us u.id ≡ false
    → Distinct (us ++ some u ∷ [])
Distinct-append [] u d h = (refl, tt)
Distinct-append (none ∷ us) u d h = absurd (omega arith)
Distinct-append (some v ∷ us) u (fresh, d) h =
    (ground (arith, has_use-append us (some u) v.id), Distinct-append us u d (ground arith))

add_method_use_scope-Distinct :
    (us : List (Option UseScope)) (u : Option UseScope)
    → Distinct us
    → Distinct (add_method_use_scope us u)
unfolding add_method_use_scope
add_method_use_scope-Distinct us none d = d
add_method_use_scope-Distinct us (some u) d = elim (Bool-cases (has_use us u.id)) [
  | inl e ↦ rw e d
  | inr e ↦ rw e (Distinct-append us u d e)
]

-- The uses that a walk over root scopes adds, with the one that was asked for.
add_method_use_scope-has_use :
    (us : List (Option UseScope)) (u : UseScope) (i : ℕ)
    → has_use (add_method_use_scope us (some u)) i ≡ has_use us i || u.id == i
unfolding add_method_use_scope
add_method_use_scope-has_use us u i = elim (Bool-cases (has_use us u.id)) [
  | inl e ↦ elim (Bool-cases (u.id == i)) [
    | inl same ↦
        let eq : has_use us u.id ≡ has_use us i = ap (has_use us) ((==_iff u.id i).0 same) in
        ground (arith, eq)
    | inr apart ↦ ground arith
  ]
  | inr e ↦ rw e (has_use-append us (some u) i)
]

-- The scopes that AddMethodUseRootScopes comes to.
abbrev pub root_scopes : List Scope → ℕ → Bool
root_scopes [] i = false
root_scopes (s ∷ parents) i =
    let later = root_scopes parents i in s.id == i || (if s.vs_lookup_parent then later else false)

-- AddMethodUseRootScopes keeps the scopes of a method's uses distinct, and afterwards they are those
-- that were there before and the chain up to the first scope that does not look in its parent.
pub add_method_use_root_scopes-Distinct :
    (chain : List Scope) (us : List (Option UseScope)) (i : ℕ)
    → Distinct us
    → let us' = add_method_use_root_scopes us chain in
      Distinct us' × (has_use us' i ≡ has_use us i || root_scopes chain i)
unfolding add_method_use_root_scopes
add_method_use_root_scopes-Distinct [] us i d = (d, ground arith)
add_method_use_root_scopes-Distinct (s ∷ parents) us i d =
    let added = add_method_use_scope us (some (as_use s)) in
    let kept : Distinct added = add_method_use_scope-Distinct us (some (as_use s)) d in
    let one = add_method_use_scope-has_use us (as_use s) i in
    elim (Bool-cases s.vs_lookup_parent) [
      | inl e ↦
          let (kept', more) = add_method_use_root_scopes-Distinct parents added i kept in
          rw (add_method_use_root_scopes, e) (kept', ground (arith, one, more, e))
      | inr e ↦ rw (add_method_use_root_scopes, e) (kept, ground (arith, one, e))
    ]
