-- ===== src/Scopes/Lookup.antt =====
-- FindType, FindValSym and FindValSymEx.
use dq_lang.Prelude.{
  ℕ, Bool, true, false, not, ◌&&◌, ◌||◌, Option, none, some, List, [], ◌∷◌, Bytes, codes, same_text,
  ◌==◌,
}
use dq_lang.Scopes.Maps.{find}
use dq_lang.Scopes.State.{ValSym, UseScope, Scope, ScopeLookupOptions}

unfoldable pub get_function : List Scope → Option ℕ
get_function [] = none
get_function (s ∷ parents) = elim s.function [ some f ↦ some f | none ↦ get_function parents ]

-- The scope where the type stands, and the type. The call for the parent leaves `arecursive` out,
-- so it is true there.
unfoldable pub find_type : Bytes → Bool → List Scope → Option (ℕ × ℕ)
unfolding find
find_type name recursive [] = none
find_type name recursive (s ∷ parents) = elim (find s.typesyms name) [
  | some t ↦ some (s.id, t)
  | none ↦ elim recursive [ false ↦ none | true ↦ find_type name true parents ]
]

abbrev pub is_some : Option ℕ → Bool
is_some none = false
is_some (some f) = true

-- Where the walk to the parents ends.
abbrev pub last_scope : Bytes → Bool → Scope → Bool
last_scope name recursive s =
    (same_text (codes "result") name && is_some s.function)
    || not recursive
    || not s.vs_lookup_parent

-- scope == options.fallback_stop_scope
abbrev pub is_stop : Option ℕ → Scope → Bool
is_stop none s = false
is_stop (some i) s = s.id == i

-- The symbol with its scope, or the scopes collected for the fallback, the outermost first.
pub data Search : Type 0 where
  found : ℕ → ValSym → Search
  missed : List Scope → Search

abbrev pub collected : Bool → Scope → List Scope → List Scope
collected true s acc = s ∷ acc
collected false s acc = acc

-- The walk of FindValSymEx, which looks at this scope first and then at its parents.
unfoldable pub walk : Bytes → Bool → Option ℕ → Bool → List Scope → List Scope → Search
unfolding find
walk name recursive stop collect acc [] = missed acc
walk name recursive stop collect acc (s ∷ parents) = elim (find s.valsyms name) [
  | some v ↦ found s.id v
  | none ↦ elim (last_scope name recursive s) [
    | true ↦ missed (collected collect s acc)
    | false ↦
        walk name recursive stop (collect && not (is_stop stop s)) (collected collect s acc) parents
  ]
]

-- The uses of one scope: the first that has the symbol.
unfoldable pub find_in_uses : Bytes → List (Option UseScope) → Option (ℕ × ValSym)
unfolding find
find_in_uses name [] = none
find_in_uses name (none ∷ uses) = find_in_uses name uses
find_in_uses name (some u ∷ uses) = elim (find u.valsyms name) [
  | some v ↦ some (u.id, v)
  | none ↦ find_in_uses name uses
]

unfoldable pub find_in_fallback : Bytes → List Scope → Option (ℕ × ValSym)
unfolding find_in_uses
find_in_fallback name [] = none
find_in_fallback name (s ∷ scopes) = elim (find_in_uses name s.method_use_scopes) [
  | some r ↦ some r
  | none ↦ find_in_fallback name scopes
]

unfoldable pub finish : Bytes → Search → Option (ℕ × ValSym)
unfolding find_in_fallback
finish name (found i v) = some (i, v)
finish name (missed scopes) = find_in_fallback name scopes

unfoldable pub find_val_sym_ex :
    Bytes → Bool → ScopeLookupOptions → List Scope → Option (ℕ × ValSym)
unfolding walk finish
find_val_sym_ex name recursive options chain =
    finish name
      (walk name recursive options.fallback_stop_scope options.use_method_fallback_scopes [] chain)

abbrev pub no_options : ScopeLookupOptions
no_options = record { fallback_stop_scope = none; use_method_fallback_scopes = false }

unfoldable pub find_val_sym : Bytes → Bool → List Scope → Option (ℕ × ValSym)
unfolding find_val_sym_ex
find_val_sym name recursive chain = find_val_sym_ex name recursive no_options chain
