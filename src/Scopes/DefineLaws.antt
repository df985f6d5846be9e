-- ===== src/Scopes/DefineLaws.antt =====
-- Definitions and the lookup behind them, and what a warning of shadowing means.
use dq_lang.Prelude.{
  ℕ, ◌≡◌, refl, Bool, true, false, Option, none, some, List, [], ◌∷◌, Bytes, All, same_text, codes,
  inl, inr, Bool-cases, Option-cases,
}
use dq_lang.Scopes.Maps.{Map, find, find-put, find-put_other}
use dq_lang.Scopes.State.{ValSym, Scope}
use dq_lang.Scopes.Lookup.{walk, find_in_fallback, finish, find_val_sym_ex, find_val_sym}
use dq_lang.Scopes.Define.{shadowed, shadow_note, warnings, define_val_sym}

find_here :
    (name : Bytes) (v : ValSym) (recursive : Bool) (s : Scope) (parents : List Scope)
    → find s.valsyms name ≡ some v
    → find_val_sym name recursive (s ∷ parents) ≡ some (s.id, v)
unfolding find_val_sym find_val_sym_ex walk finish
find_here name v recursive s parents e = rw (walk, e)

-- Whether DefineValSym takes the symbol or refuses it, the symbol that it returns is the one that
-- FindValSym returns for the name in this scope afterwards.
pub find_val_sym-define_val_sym :
    (s : Scope) (parents : List Scope) (v : ValSym) (recursive : Bool)
    → let (s', answer, notes) = define_val_sym s parents v in
      find_val_sym v.name recursive (s' ∷ parents) ≡ some (s.id, answer)
unfolding define_val_sym
find_val_sym-define_val_sym s parents v recursive = elim (Option-cases (find s.valsyms v.name)) [
  | inl e ↦
      rw (define_val_sym, e) (find_here v.name _ recursive _ parents (find-put s.valsyms v.name _))
  | inr (old, e) ↦ rw (define_val_sym, e) (find_here v.name old recursive s parents e)
]

walk_unchanged :
    (name : Bytes) (recursive : Bool) (s : Scope) (m : Map ValSym) (os : List ℕ)
    (parents : List Scope)
    → find m name ≡ find s.valsyms name
    → find_val_sym name recursive (record s { valsyms = m; owned_objects = os } ∷ parents)
      ≡ find_val_sym name recursive (s ∷ parents)
unfolding find_val_sym find_val_sym_ex walk finish
walk_unchanged name recursive s m os parents e = rw (walk, walk, e)

-- No other name is looked up differently after DefineValSym.
pub find_val_sym-define_val_sym_other :
    (s : Scope) (parents : List Scope) (v : ValSym) (name : Bytes) (recursive : Bool)
    → same_text v.name name ≡ false
    → find_val_sym name recursive ((define_val_sym s parents v).0 ∷ parents)
      ≡ find_val_sym name recursive (s ∷ parents)
unfolding define_val_sym
find_val_sym-define_val_sym_other s parents v name recursive apart =
    elim (Option-cases (find s.valsyms v.name)) [
      | inl e ↦
          rw (define_val_sym, e)
            (walk_unchanged name recursive s _ _ parents
              (find-put_other s.valsyms v.name name _ apart))
      | inr (old, e) ↦ rw (define_val_sym, e)
    ]

-- The symbol that a lookup found.
abbrev pub found_symbol : Option (ℕ × ValSym) → Option ValSym
found_symbol none = none
found_symbol (some (i, v)) = some v

abbrev pub Unsuppressed : Scope → Type 0
Unsuppressed s = s.suppress_child_shadowing_warnings ≡ false

shadowed_lem :
    (name : Bytes) (parents : List Scope)
    → same_text (codes "result") name ≡ false
    → All Unsuppressed parents
    → shadowed name parents ≡ found_symbol (find_val_sym name true parents)
unfolding shadowed find_val_sym find_val_sym_ex walk finish find_in_fallback
shadowed_lem name [] plain h = refl
shadowed_lem name (s ∷ parents) plain (u, h) = elim (Option-cases (find s.valsyms name)) [
  | inl e ↦ elim (Bool-cases s.vs_lookup_parent) [
    | inl p ↦ rw (shadowed, walk, u, e, p, plain) (shadowed_lem name parents plain h)
    | inr p ↦ rw (shadowed, walk, u, e, p, plain)
  ]
  | inr (v, e) ↦ rw (shadowed, walk, u, e)
]

skipped :
    (name : Bytes) (s : Scope) (parents : List Scope)
    → find s.valsyms name ≡ none
    → s.vs_lookup_parent ≡ true
    → same_text (codes "result") name ≡ false
    → find_val_sym name true (s ∷ parents) ≡ find_val_sym name true parents
unfolding find_val_sym find_val_sym_ex walk
skipped name s parents fresh look plain = rw (walk, fresh, look, plain)

-- In a scope with warnings, below scopes that suppress none, a new symbol other than `result` is
-- warned about exactly for the symbol that FindValSym found from this scope before, unless this one is
-- external.
pub define_val_sym_warns :
    (s : Scope) (parents : List Scope) (v : ValSym)
    → find s.valsyms v.name ≡ none
    → s.warn_shadowing ≡ true
    → s.vs_lookup_parent ≡ true
    → same_text (codes "result") v.name ≡ false
    → All Unsuppressed parents
    → let (s', answer, notes) = define_val_sym s parents v in
      notes ≡ shadow_note v (found_symbol (find_val_sym v.name true (s ∷ parents)))
unfolding define_val_sym warnings
define_val_sym_warns s parents v fresh warn look plain h =
    let before : find_val_sym v.name true (s ∷ parents) ≡ find_val_sym v.name true parents =
      skipped v.name s parents fresh look plain in
    rw (define_val_sym, fresh, before, warn, shadowed_lem v.name parents plain h)
