-- ===== src/Scopes/Selected.antt =====
-- OModuleUse, compiler/ast/symbols.cpp: the symbols of a module that a `use` makes known.
use dq_lang.Prelude.{
  Bool, true, false, not, ◌||◌, Option, none, some, List, [], ◌∷◌, ◌++◌, Bytes, if◌then◌else◌,
}
use dq_lang.Scopes.Maps.{Map, find, put}
use dq_lang.Scopes.State.{Scope}
use dq_lang.Scopes.Uses.{contains}

pub data MergeMode : Type 0 where
  mum_all mum_none mum_only mum_exclude : MergeMode

-- The module's public scope, and the names that stand in the `use`; the set symbol_name_set is made
-- of these.
pub record ModuleUse : Type 0 where
  pub scope_pub : Scope
  pub merge_mode : MergeMode
  pub symbol_names : List Bytes

abbrev pub selected : MergeMode → List Bytes → Bytes → Bool
selected mum_all names n = true
selected mum_only names n = contains names n
selected mum_exclude names n = not (contains names n)
selected mum_none names n = false

unfoldable pub symbol_selected : ModuleUse → Bytes → Bool
symbol_selected u n = selected u.merge_mode u.symbol_names n

-- FindType and FindValSym without the parents, as ValidateSymbolNames asks for.
abbrev pub declares : Scope → Bytes → Bool
declares s n =
    elim (find s.typesyms n) [ none ↦ false | some t ↦ true ]
    || elim (find s.valsyms n) [ none ↦ false | some v ↦ true ]

-- The first name that the module does not have.
unfoldable pub unknown_name : Scope → List Bytes → Option Bytes
unfolding find
unknown_name s [] = none
unknown_name s (n ∷ ns) =
    let later = unknown_name s ns in if not (declares s n) then some n else later

-- The answer, and the name in the error.
abbrev pub answered : Option Bytes → Bool × Option Bytes
answered none = (true, none)
answered (some n) = (false, some n)

abbrev pub validated : MergeMode → Option Bytes → Bool × Option Bytes
validated mum_only o = answered o
validated mum_exclude o = answered o
validated _ o = (true, none)

unfoldable pub validate_symbol_names : ModuleUse → Bool × Option Bytes
unfolding unknown_name
validate_symbol_names u = validated u.merge_mode (unknown_name u.scope_pub u.symbol_names)

-- for (auto & it : src) if (SymbolSelected(it.first)) dst[it.first] = it.second;
unfoldable pub copy_selected : {A : Type 0} → (Bytes → Bool) → Map A → Map A → Map A
unfolding put
copy_selected sel [] dst = dst
copy_selected sel ((n, a) ∷ src) dst = copy_selected sel src (if sel n then put dst n a else dst)

unfoldable pub copy_selected_symbols_to : ModuleUse → Scope → Scope
unfolding copy_selected symbol_selected
copy_selected_symbols_to u dst = record dst {
  typesyms = copy_selected (symbol_selected u) u.scope_pub.typesyms dst.typesyms;
  valsyms = copy_selected (symbol_selected u) u.scope_pub.valsyms dst.valsyms;
}

-- add_name for the selected names of one map.
unfoldable pub add_names : {A : Type 0} → (Bytes → Bool) → List Bytes → Map A → List Bytes
add_names sel result [] = result
add_names sel result ((n, a) ∷ m) =
    add_names sel
      (if sel n then (if contains result n then result else result ++ n ∷ []) else result) m

-- The maps of the model keep the order of insertion, and so does the list of names.
unfoldable pub effective_symbol_names : ModuleUse → List Bytes
unfolding add_names symbol_selected
effective_symbol_names u =
    add_names (symbol_selected u) (add_names (symbol_selected u) [] u.scope_pub.typesyms)
      u.scope_pub.valsyms
