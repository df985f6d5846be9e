-- ===== src/Scopes/LookupLaws.antt =====
-- FindValSym finds the nearest visible declaration, and FindType the nearest one.
use dq_lang.Prelude.{
  ℕ, ◌≡◌, ◌↔◌, refl, ap, Bool, true, false, Option, none, some, List, [], ◌∷◌, Bytes, arith, ◌∙◌,
  ◌≢◌, inl, inr, Bool-cases, Option-cases, ◌⊎◌, sym, ◌++◌, All, codes, same_text, same_text-eq,
  same_text_refl,
}
use dq_lang.Scopes.Maps.{find}
use dq_lang.Scopes.State.{ValSym, Scope, ScopeLookupOptions}
use dq_lang.Scopes.Lookup.{
  last_scope, walk, finish, find_val_sym_ex, found, no_options, find_val_sym, missed, is_some,
}

-- What lets a lookup pass on from a scope that does not declare the name: it is asked to look further,
-- the scope is open to its parent, and `result` is not looked up beyond the scope of a function.
abbrev pub Passes : Bytes → Bool → Scope → Type 0
Passes name recursive s =
    (recursive ≡ true) × (s.vs_lookup_parent ≡ true) × (name ≡ codes "result" → s.function ≡ none)

-- The scope i of the chain declares v under the name, and the lookup passes every scope before it.
abbrev pub Nearest : Bytes → Bool → ℕ → ValSym → List Scope → Type 0
Nearest name recursive i v chain =
    (before : List Scope) × (s : Scope) × (parents : List Scope) × (chain ≡ before ++ s ∷ parents)
    × All (λ (t : Scope). (find t.valsyms name ≡ none) × Passes name recursive t) before
    × (find s.valsyms name ≡ some v)
    × (s.id ≡ i)

is_some-none : (o : Option ℕ) → is_some o ≡ false → o ≡ none
is_some-none none h = refl
is_some-none (some f) h = cc

Passes-last_scope :
    (name : Bytes) (recursive : Bool) (s : Scope)
    → Passes name recursive s
    → last_scope name recursive s ≡ false
Passes-last_scope name recursive s (asked, opened, result) =
    elim (Bool-cases (same_text (codes "result") name)) [
      | inl e ↦ rw (e, asked, opened, result (sym (same_text-eq (codes "result") name e))) refl
      | inr e ↦ rw (e, asked, opened) refl
    ]

last_scope-Passes :
    (name : Bytes) (recursive : Bool) (s : Scope)
    → last_scope name recursive s ≡ false
    → Passes name recursive s
last_scope-Passes name recursive s h = (
  ground arith,
  ground arith,
  λ e.
      let same : same_text (codes "result") name ≡ true = rw e (same_text_refl (codes "result")) in
      is_some-none s.function (ground arith),
)

walk-Passes :
    (name : Bytes) (recursive : Bool) (stop : Option ℕ) (before : List Scope) (s : Scope)
    (parents : List Scope) (v : ValSym) (collect : Bool) (acc : List Scope)
    → All (λ (t : Scope). (find t.valsyms name ≡ none) × Passes name recursive t) before
    → find s.valsyms name ≡ some v
    → walk name recursive stop collect acc (before ++ s ∷ parents) ≡ found s.id v
unfolding walk
walk-Passes name recursive stop [] s parents v collect acc h e = rw (walk, e) refl
walk-Passes name recursive stop (t ∷ before) s parents v collect acc ((absent, passes), h) e =
    rw (walk, absent, Passes-last_scope name recursive t passes)
      (walk-Passes name recursive stop before s parents v _ _ h e)

-- Whatever the options, FindValSymEx returns the nearest declaration.
pub find_val_sym_ex-Nearest :
    (name : Bytes) (recursive : Bool) (i : ℕ) (v : ValSym) (options : ScopeLookupOptions)
    (chain : List Scope)
    → Nearest name recursive i v chain
    → find_val_sym_ex name recursive options chain ≡ some (i, v)
unfolding find_val_sym_ex finish
find_val_sym_ex-Nearest name recursive i v options chain (before, s, parents, split, h, e, id) =
    let walked =
      walk-Passes name recursive options.fallback_stop_scope before s parents v
        options.use_method_fallback_scopes [] h e in
    rw (split, walked, id) refl

some_not_none : {A : Type 0} {x : A} → none ≢ some x
some_not_none h = ground arith

pub some_injective : {A : Type 0} {x y : A} → some x ≡ some y → x ≡ y
some_injective h = cc h

missed_found : (ss : List Scope) (i : ℕ) (v : ValSym) → missed ss ≢ found i v
missed_found ss i v h = ground arith

found_injective : (i j : ℕ) (u v : ValSym) → found i u ≡ found j v → (i ≡ j) × (u ≡ v)
found_injective i j u v h = (cc h, cc h)

Nearest-walk :
    (name : Bytes) (recursive : Bool) (i : ℕ) (v : ValSym) (stop : Option ℕ) (chain : List Scope)
    (collect : Bool) (acc : List Scope)
    → walk name recursive stop collect acc chain ≡ found i v
    → Nearest name recursive i v chain
unfolding walk
Nearest-walk name recursive i v stop [] collect acc h = absurd (missed_found acc i v h)
Nearest-walk name recursive i v stop (s ∷ parents) collect acc h =
    elim (Option-cases (find s.valsyms name)) [
      | inl e ↦ elim (Bool-cases (last_scope name recursive s)) [
        | inl l ↦ absurd (missed_found _ i v (rw (walk, e, l) at h))
        | inr l ↦
            let (before, t, rest, split, passed, at, id) =
              Nearest-walk name recursive i v stop parents _ _ (rw (walk, e, l) at h) in
            (
              s ∷ before,
              t,
              rest,
              ap (λ ts. s ∷ ts) split,
              ((e, last_scope-Passes name recursive s l), passed),
              at,
              id,
            )
      ]
      | inr (u, e) ↦
          let (same_id, same_symbol) = found_injective s.id i u v (rw (walk, e) at h) in
          ([], s, parents, refl, tt, e ∙ ap some same_symbol, same_id)
    ]

-- A walk that collects nothing has nothing to fall back on.
pub walk_uncollected :
    (name : Bytes) (recursive : Bool) (chain : List Scope)
    → (walk name recursive none false [] chain ≡ missed [])
      ⊎ ((i : ℕ) × (v : ValSym) × (walk name recursive none false [] chain ≡ found i v))
unfolding walk
walk_uncollected name recursive [] = inl refl
walk_uncollected name recursive (s ∷ parents) = elim (Option-cases (find s.valsyms name)) [
  | inl e ↦ elim (Bool-cases (last_scope name recursive s)) [
    | inl l ↦ inl (rw (walk, e, l))
    | inr l ↦ rw (walk, e, l) (walk_uncollected name recursive parents)
  ]
  | inr (u, e) ↦ inr (s.id, u, rw (walk, e))
]

-- FindValSym returns a symbol of a scope exactly if this scope declares it under the name, and every
-- scope before it does not declare the name and lets the lookup pass: the lookup is recursive, the
-- scope is open to its parent, and if the name is `result` the scope is not a function's.
pub find_val_sym_iff :
    (name : Bytes) (recursive : Bool) (i : ℕ) (v : ValSym) (chain : List Scope)
    → (find_val_sym name recursive chain ≡ some (i, v)) ↔ Nearest name recursive i v chain
unfolding find_val_sym find_val_sym_ex
find_val_sym_iff name recursive i v chain = (
  λ h. elim (walk_uncollected name recursive chain) [
    | inl e ↦ absurd (some_not_none (rw e at h))
    | inr (j, u, e) ↦
        Nearest-walk name recursive i v none chain false []
          (e ∙ ap (λ (x : ℕ × ValSym). found x.0 x.1) (some_injective (rw e at h)))
  ],
  find_val_sym_ex-Nearest name recursive i v no_options chain,
)

-- Where the walk ends in the first scope, the scopes behind it make no difference.
pub find_val_sym_last :
    (name : Bytes) (s : Scope) (parents parents' : List Scope)
    → last_scope name true s ≡ true
    → find_val_sym name true (s ∷ parents) ≡ find_val_sym name true (s ∷ parents')
unfolding find_val_sym find_val_sym_ex walk
find_val_sym_last name s parents parents' h = elim (Option-cases (find s.valsyms name)) [
  | inl e ↦ rw (walk, walk, e, h)
  | inr (u, e) ↦ rw (walk, walk, e)
]
