-- ===== src/Objects/Members.antt =====
-- The members of a class and its bases: FindMemberIndex, FindMemberSymbol, FindFieldIndex and
-- FindDefaultProperty. Each of the last three also gives the class that declares what it found.
use dq_lang.Objects.Classes.{Property, Class, Member, Chain}
use dq_lang.Scopes.Maps.{find}
use dq_lang.Prelude.{ℕ, suc, Option, none, some, List, [], ◌∷◌, if◌then◌else◌, same_text, Bytes}

unfoldable pub find_member_index : List Bytes → Bytes → Option ℕ
find_member_index [] name = none
find_member_index (n ∷ ns) name =
    let rest = find_member_index ns name in
    if same_text n name then some 0 else elim rest [ none ↦ none | some i ↦ some (suc i) ]

abbrev pub with_class : {A : Type 0} → Class → Option A → Option (A × ℕ) → Option (A × ℕ)
with_class c none rest = rest
with_class c (some a) rest = some (a, c.id)

unfoldable pub find_member_symbol : Chain → Bytes → Option (Member × ℕ)
unfolding find
find_member_symbol [] name = none
find_member_symbol (c ∷ bases) name =
    with_class c (find c.valsyms name) (find_member_symbol bases name)

unfoldable pub find_field_index : Chain → Bytes → Option (ℕ × ℕ)
unfolding find_member_index
find_field_index [] name = none
find_field_index (c ∷ bases) name =
    with_class c (find_member_index c.member_order name) (find_field_index bases name)

-- The loop over the properties from the last one on.
unfoldable pub last_default : List Property → Option Property
last_default [] = none
last_default (p ∷ ps) = elim (last_default ps) [
  | some q ↦ some q
  | none ↦ if p.is_default then some p else none
]

unfoldable pub find_default_property : Chain → Option (Property × ℕ)
unfolding last_default
find_default_property [] = none
find_default_property (c ∷ bases) =
    with_class c (last_default c.properties) (find_default_property bases)
