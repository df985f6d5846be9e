-- ===== src/Scopes/State.antt =====
-- OScope and the symbols it holds. A scope's parents stand behind it in a list, the nearest first.
use dq_lang.Prelude.{ℕ, Bool, Option, List, Bytes}
use dq_lang.Scopes.Maps.{Map}

-- OValSym: a number stands for the object's address. `func_is_external` is the flag of an
-- OValSymFunc, and `none` for every other symbol.
pub record ValSym : Type 0 where
  pub id : ℕ
  pub name : Bytes
  pub is_vsk_function : Bool
  pub attr_is_external : Bool
  pub func_is_external : Option Bool
  pub requires_cleanup : Bool
  pub owner_function : Option ℕ

-- A scope whose symbols a method uses: its address, and its own symbols.
pub record UseScope : Type 0 where
  pub id : ℕ
  pub valsyms : Map ValSym

pub record Scope : Type 0 where
  pub id : ℕ
  pub function : Option ℕ
  pub vs_lookup_parent : Bool
  pub warn_shadowing : Bool
  pub suppress_child_shadowing_warnings : Bool
  pub typesyms : Map ℕ
  pub valsyms : Map ValSym
  pub method_use_scopes : List (Option UseScope)
  pub method_use_aliases : List Bytes
  pub method_use_dot : Bool
  pub method_use_star : Bool
  pub firstassign : List ℕ
  pub owned_objects : List ℕ

pub record ScopeLookupOptions : Type 0 where
  pub fallback_stop_scope : Option ℕ
  pub use_method_fallback_scopes : Bool
