-- ===== src/Tests/Scopes.antt =====
-- Scopes and the symbols of a `use`: compiler/ast/oscope.cpp and symbols.cpp.
use dq_lang.Prelude.{
  ℕ, ◌≡◌, ◌↔◌, refl, true, false, not, ◌&&◌, ◌||◌, none, some, List, [], ◌∷◌, Bytes, codes, ◌==◌,
}
use dq_lang.Scopes.Maps.{find}
use dq_lang.Scopes.State.{ValSym, UseScope, Scope, ScopeLookupOptions}
use dq_lang.Scopes.Lookup.{walk, find_in_fallback, finish, find_val_sym_ex, find_val_sym}
use dq_lang.Scopes.Define.{define_val_sym}
use dq_lang.Scopes.Assigned.{Flags, revert_first_assignments, listed, first_assigned}
use dq_lang.Scopes.Selected.{ModuleUse, symbol_selected, copy_selected_symbols_to, mum_only}
use dq_lang.Scopes.LookupLaws.{Nearest, find_val_sym_iff}
use dq_lang.Scopes.FallbackLaws.{or_else, find_val_sym_ex-or_else}
use dq_lang.Scopes.DefineLaws.{find_val_sym-define_val_sym}
use dq_lang.Scopes.AssignedLaws.{assign_all, assign_all_lem}
use dq_lang.Scopes.SelectedLaws.{preferred, copy_selected_symbols_to_lem}

abbrev symbol : ℕ → Bytes → ValSym
symbol i n = record {
  id = i;
  name = n;
  is_vsk_function = false;
  attr_is_external = false;
  func_is_external = none;
  requires_cleanup = true;
  owner_function = none;
}

abbrev helper : UseScope
helper = record { id = 9; valsyms = (codes "h", symbol 90 (codes "h")) ∷ [] }

abbrev outer : Scope
outer = record {
  id = 1;
  function = some 5;
  vs_lookup_parent = true;
  warn_shadowing = false;
  suppress_child_shadowing_warnings = false;
  typesyms = (codes "T", 70) ∷ [];
  valsyms = (codes "a", symbol 10 (codes "a")) ∷ [];
  method_use_scopes = some helper ∷ [];
  method_use_aliases = [];
  method_use_dot = false;
  method_use_star = false;
  firstassign = [];
  owned_objects = [];
}

abbrev inner : Scope
inner = record outer {
  id = 2;
  function = none;
  warn_shadowing = true;
  valsyms = (codes "b", symbol 20 (codes "b")) ∷ [];
  method_use_scopes = [];
}

abbrev chain : List Scope
chain = inner ∷ outer ∷ []

abbrev options : ScopeLookupOptions
options = record { fallback_stop_scope = none; use_method_fallback_scopes = true }

find_val_sym-helper :
    find_val_sym_ex (codes "h") true options chain ≡ some (9, symbol 90 (codes "h"))
unfolding find_val_sym_ex walk finish
find_val_sym-helper = refl

find_val_sym_iff_example :
    (find_val_sym (codes "a") true chain ≡ some (1, symbol 10 (codes "a")))
    ↔ Nearest (codes "a") true 1 (symbol 10 (codes "a")) chain
find_val_sym_iff_example = find_val_sym_iff (codes "a") true 1 (symbol 10 (codes "a")) chain

find_val_sym_ex-or_else_example :
    find_val_sym_ex (codes "h") true options chain
    ≡ or_else
        (find_val_sym (codes "h") true chain)
        (find_in_fallback (codes "h") (outer ∷ inner ∷ []))
find_val_sym_ex-or_else_example = find_val_sym_ex-or_else (codes "h") true options chain

find_val_sym-define_val_sym_example :
    let (s', answer, notes) = define_val_sym inner (outer ∷ []) (symbol 30 (codes "a")) in
    find_val_sym (codes "a") true (s' ∷ outer ∷ []) ≡ some (2, answer)
find_val_sym-define_val_sym_example =
    find_val_sym-define_val_sym inner (outer ∷ []) (symbol 30 (codes "a")) true

abbrev flags : Flags
flags x = x == 7

assign_all_lem_example :
    let (s', flags') = assign_all inner flags (7 ∷ 8 ∷ []) in
    (revert_first_assignments s' flags' 8 ≡ revert_first_assignments inner flags 8)
    × (first_assigned s' 8 ≡ first_assigned inner 8 || (listed (7 ∷ 8 ∷ []) 8 && not (flags 8)))
    × (flags' 8 ≡ flags 8 || listed (7 ∷ 8 ∷ []) 8)
assign_all_lem_example = assign_all_lem inner flags (7 ∷ 8 ∷ []) 8

abbrev use_a : ModuleUse
use_a = record { scope_pub = outer; merge_mode = mum_only; symbol_names = codes "a" ∷ [] }

copy_selected_symbols_to_lem_example :
    let copy = copy_selected_symbols_to use_a inner in
    (find copy.valsyms (codes "a")
      ≡ preferred
          (symbol_selected use_a (codes "a"))
          (find outer.valsyms (codes "a"))
          (find inner.valsyms (codes "a")))
    × (find copy.typesyms (codes "a")
        ≡ preferred
            (symbol_selected use_a (codes "a"))
            (find outer.typesyms (codes "a"))
            (find inner.typesyms (codes "a")))
unfolding find
copy_selected_symbols_to_lem_example =
    copy_selected_symbols_to_lem use_a inner (codes "a") (refl, tt) (refl, tt)
