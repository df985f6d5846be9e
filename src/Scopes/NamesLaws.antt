-- ===== src/Scopes/NamesLaws.antt =====
-- EffectiveSymbolNames and ValidateSymbolNames: the names of a `use`.
use dq_lang.Prelude.{
  ◌≡◌, ◌∙◌, refl, sym, ap, Bool, true, false, ◌||◌, ◌&&◌, Option, none, some, List, [], ◌∷◌, ◌++◌,
  Bytes, same_text, same_text-eq, if◌then◌else◌, inl, inr, Bool-cases, arith,
}
use dq_lang.Scopes.Maps.{Map, find}
use dq_lang.Scopes.State.{Scope}
use dq_lang.Scopes.LookupLaws.{some_injective}
use dq_lang.Scopes.Uses.{contains}
use dq_lang.Scopes.Selected.{
  ModuleUse, symbol_selected, add_names, effective_symbol_names, declares, unknown_name,
  validate_symbol_names, mum_only, MergeMode, selected, answered, validated, mum_all, mum_none,
  mum_exclude,
}

-- Whether a map has a key.
abbrev pub has_key : {A : Type 0} → Map A → Bytes → Bool
has_key [] n = false
has_key ((k, a) ∷ m) n = same_text k n || has_key m n

contains-append :
    (ks : List Bytes) (k n : Bytes) → contains (ks ++ k ∷ []) n ≡ contains ks n || same_text k n
contains-append [] k n = ground arith
contains-append (j ∷ ks) k n = ground (arith, contains-append ks k n)

-- No name twice.
abbrev pub DistinctNames : List Bytes → Type 0
DistinctNames [] = Unit
DistinctNames (k ∷ ks) = (contains ks k ≡ false) × DistinctNames ks

same_text_sym : (xs ys : Bytes) → same_text xs ys ≡ same_text ys xs
same_text_sym [] [] = refl
same_text_sym [] (y ∷ ys) = refl
same_text_sym (x ∷ xs) [] = refl
same_text_sym (x ∷ xs) (y ∷ ys) = ground (arith, same_text_sym xs ys)

DistinctNames-append :
    (ks : List Bytes) (k : Bytes)
    → DistinctNames ks
    → contains ks k ≡ false
    → DistinctNames (ks ++ k ∷ [])
DistinctNames-append [] k d h = (refl, tt)
DistinctNames-append (j ∷ ks) k (fresh, d) h = (
  ground (arith, contains-append ks k j, same_text_sym j k),
  DistinctNames-append ks k d (ground arith),
)

add_name_lem :
    (b : Bool) (ks : List Bytes) (k n : Bytes)
    → DistinctNames ks
    → let ks' = if b then (if contains ks k then ks else ks ++ k ∷ []) else ks in
      (contains ks' n ≡ contains ks n || (b && same_text k n)) × DistinctNames ks'
add_name_lem false ks k n d = (ground arith, d)
add_name_lem true ks k n d = elim (Bool-cases (contains ks k)) [
  | inl e ↦ elim (Bool-cases (same_text k n)) [
    | inl same ↦
        let eq : contains ks k ≡ contains ks n = ap (contains ks) (same_text-eq k n same) in
        rw e (ground (arith, eq), d)
    | inr apart ↦ rw e (ground arith, d)
  ]
  | inr e ↦ rw e (contains-append ks k n, DistinctNames-append ks k d e)
]

add_names_lem :
    {A : Type 0} (sel : Bytes → Bool) (m : Map A) (ks : List Bytes) (n : Bytes)
    → DistinctNames ks
    → (contains (add_names sel ks m) n ≡ contains ks n || (sel n && has_key m n))
      × DistinctNames (add_names sel ks m)
unfolding add_names
add_names_lem sel [] ks n d = (ground arith, d)
add_names_lem sel ((k, a) ∷ m) ks n d =
    let ks' = if sel k then (if contains ks k then ks else ks ++ k ∷ []) else ks in
    let (one, d') = add_name_lem (sel k) ks k n d in
    let (more, d'') = add_names_lem sel m ks' n d' in
    elim (Bool-cases (same_text k n)) [
      | inl same ↦
          let eq : sel k ≡ sel n = ap sel (same_text-eq k n same) in
          (ground (arith, one, more, eq), d'')
      | inr apart ↦ (ground (arith, one, more), d'')
    ]

-- EffectiveSymbolNames lists a name exactly if the `use` selects it and the module has a type or a
-- value of that name, and it lists no name twice.
pub effective_symbol_names_lem :
    (u : ModuleUse) (n : Bytes)
    → (contains (effective_symbol_names u) n
        ≡ symbol_selected u n && (has_key u.scope_pub.typesyms n || has_key u.scope_pub.valsyms n))
      × DistinctNames (effective_symbol_names u)
unfolding effective_symbol_names
effective_symbol_names_lem u n =
    let sel = symbol_selected u in
    let (types, d) = add_names_lem sel u.scope_pub.typesyms [] n tt in
    let (both, d') =
      add_names_lem sel u.scope_pub.valsyms (add_names sel [] u.scope_pub.typesyms) n d in
    (ground (arith, types, both), d')

find-has_key :
    {A : Type 0} (m : Map A) (n : Bytes)
    → elim (find m n) as (λ o. Bool) [ none ↦ false | some a ↦ true ] ≡ has_key m n
unfolding find
find-has_key [] n = refl
find-has_key ((k, a) ∷ m) n = elim (Bool-cases (same_text k n)) [
  | inl e ↦ rw e
  | inr e ↦ rw e (find-has_key m n)
]

unknown_name-none :
    (s : Scope) (ns : List Bytes) (n : Bytes)
    → unknown_name s ns ≡ none
    → contains ns n ≡ true
    → declares s n ≡ true
unfolding unknown_name
unknown_name-none s [] n h c = ground arith
unknown_name-none s (k ∷ ns) n h c = elim (Bool-cases (same_text k n)) [
  | inl e ↦
      let eq : declares s k ≡ declares s n = ap (declares s) (same_text-eq k n e) in
      ground (arith, eq)
  | inr e ↦ ground (arith, unknown_name-none s ns n)
]

unknown_name-some :
    (s : Scope) (ns : List Bytes) (n : Bytes) → unknown_name s ns ≡ some n → declares s n ≡ false
unfolding unknown_name
unknown_name-some s [] n h = absurd (ground arith)
unknown_name-some s (k ∷ ns) n h = elim (Bool-cases (declares s k)) [
  | inl e ↦ unknown_name-some s ns n (rw (unknown_name, e) at h)
  | inr e ↦
      let eq : k ≡ n = some_injective (rw (unknown_name, e) at h) in ap (declares s) (sym eq) ∙ e
]

validated-true : (o : Option Bytes) → (validated mum_only o).0 ≡ true → o ≡ none
validated-true none h = refl
validated-true (some n) h = absurd (ground arith)

answered-some :
    (o : Option Bytes) (n : Bytes)
    → (answered o).1 ≡ some n
    → ((answered o).0 ≡ false) × (o ≡ some n)
answered-some none n h = absurd (ground arith)
answered-some (some k) n h = (refl, h)

validated-some :
    (m : MergeMode) (o : Option Bytes) (n : Bytes)
    → (validated m o).1 ≡ some n
    → ((validated m o).0 ≡ false) × (o ≡ some n)
validated-some mum_only o n h = answered-some o n h
validated-some mum_exclude o n h = answered-some o n h
validated-some mum_all o n h = absurd (ground arith)
validated-some mum_none o n h = absurd (ground arith)

-- If ValidateSymbolNames of a `use` of some names only returns true, all these names are among the
-- EffectiveSymbolNames.
pub effective_symbol_names-validate_symbol_names :
    (u : ModuleUse) (n : Bytes)
    → u.merge_mode ≡ mum_only
    → (validate_symbol_names u).0 ≡ true
    → contains u.symbol_names n ≡ true
    → contains (effective_symbol_names u) n ≡ true
unfolding validate_symbol_names symbol_selected
effective_symbol_names-validate_symbol_names u n only valid named =
    let all_known = validated-true (unknown_name u.scope_pub u.symbol_names) (rw only at valid) in
    let known = unknown_name-none u.scope_pub u.symbol_names n all_known named in
    let sel : selected u.merge_mode u.symbol_names n ≡ true = rw only named in
    let types = find-has_key u.scope_pub.typesyms n in
    let values = find-has_key u.scope_pub.valsyms n in
    let listed_so = (effective_symbol_names_lem u n).0 in
    ground (arith, sel, known, types, values, listed_so)

-- An error of ValidateSymbolNames names a symbol that the module does not have.
pub validate_symbol_names_failed :
    (u : ModuleUse) (n : Bytes)
    → (validate_symbol_names u).1 ≡ some n
    → ((validate_symbol_names u).0 ≡ false) × (declares u.scope_pub n ≡ false)
unfolding validate_symbol_names
validate_symbol_names_failed u n h =
    let (refused, unknown) =
      validated-some u.merge_mode (unknown_name u.scope_pub u.symbol_names) n h in
    (refused, unknown_name-some u.scope_pub u.symbol_names n unknown)
