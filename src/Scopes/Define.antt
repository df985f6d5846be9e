-- ===== src/Scopes/Define.antt =====
-- DefineType and DefineValSym.
use dq_lang.Prelude.{
  ℕ, Bool, true, false, Option, none, some, List, [], ◌∷◌, ◌++◌, Bytes, ◌||◌, if◌then◌else◌,
}
use dq_lang.Scopes.Maps.{find, put}
use dq_lang.Scopes.State.{ValSym, Scope}
use dq_lang.Scopes.Lookup.{get_function}

-- The messages, without their wording.
pub data Note : Type 0 where
  type_already_defined : Bytes → Note
  val_sym_already_declared : Bytes → Note
  shadow_function : Bytes → ValSym → Note
  shadow_val_sym : Bytes → ValSym → Note

-- The scope with the type, the type that has the name now, and the error.
unfoldable pub define_type : Scope → Bytes → ℕ → Scope × ℕ × List Note
unfolding find put
define_type s name t = elim (find s.typesyms name) [
  | some old ↦ (s, old, type_already_defined name ∷ [])
  | none ↦ (record s { typesyms = put s.typesyms name t }, t, [])
]

-- The symbol of an outer scope that a new one of this name hides.
unfoldable pub shadowed : Bytes → List Scope → Option ValSym
unfolding find
shadowed name [] = none
shadowed name (s ∷ parents) = elim s.suppress_child_shadowing_warnings [
  | true ↦ none
  | false ↦ elim (find s.valsyms name) [
    | some v ↦ some v
    | none ↦ elim s.vs_lookup_parent [ false ↦ none | true ↦ shadowed name parents ]
  ]
]

-- A function that is external, or any symbol with the attribute.
abbrev pub is_external : ValSym → Bool
is_external v = v.attr_is_external || elim v.func_is_external [ none ↦ false | some b ↦ b ]

abbrev pub shadow_note : ValSym → Option ValSym → List Note
shadow_note v none = []
shadow_note v (some outer) =
    if is_external outer
    then []
    else (if v.is_vsk_function then shadow_function v.name outer else shadow_val_sym v.name outer)
      ∷ []

unfoldable pub warnings : Scope → List Scope → ValSym → List Note
unfolding shadowed
warnings s parents v = if s.warn_shadowing then shadow_note v (shadowed v.name parents) else []

abbrev pub owned : List ℕ → ValSym → List ℕ
owned os v = if v.requires_cleanup then os ++ v.id ∷ [] else os

-- The symbol as it stands in the scope: it knows the function that it belongs to.
unfoldable pub adopted : Scope → List Scope → ValSym → ValSym
unfolding get_function
adopted s parents v = record v { owner_function = get_function (s ∷ parents) }

-- The scope with the symbol, the symbol that has the name now, and the messages.
unfoldable pub define_val_sym : Scope → List Scope → ValSym → Scope × ValSym × List Note
unfolding find put warnings adopted
define_val_sym s parents v = elim (find s.valsyms v.name) [
  | some old ↦ (s, old, val_sym_already_declared v.name ∷ [])
  | none ↦ (
    record s {
      valsyms = put s.valsyms v.name (adopted s parents v);
      owned_objects = owned s.owned_objects v;
    },
    adopted s parents v,
    warnings s parents v,
  )
]
