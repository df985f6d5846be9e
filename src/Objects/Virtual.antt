-- ===== src/Objects/Virtual.antt =====
-- Virtual methods: FindVirtualBaseMethod, FindVirtualSlot and UpdateObjectInheritanceFlags.
use dq_lang.Calls.Signatures.{Param, Signature, same_bool, same_params, same_return}
use dq_lang.Objects.Classes.{Method, Class, Member, Chain, method, overload_set, plain}
use dq_lang.Scopes.Maps.{Map, find}
use dq_lang.Prelude.{
  ℕ, suc, Bool, true, false, ◌&&◌, ◌||◌, Option, none, some, List, [], ◌∷◌, ◌++◌, ◌==◌,
  if◌then◌else◌, length, drop, set,
}

-- The loop over the parameters behind the receiver; it compares the modes.
unfoldable pub same_user_params : List Param → List Param → Bool
unfolding same_params
same_user_params fs ms = length fs == length ms && same_params true (drop 1 fs) (drop 1 ms)

unfoldable pub matches_method_signature : Signature → Method → Bool
unfolding same_user_params same_return
matches_method_signature fsig m =
    m.is_virtual
    && (same_bool fsig.has_varargs m.sig.has_varargs
        && same_return fsig.rettype m.sig.rettype
        && same_user_params fsig.params m.sig.params)

unfoldable pub first_match : Signature → List Method → Option Method
unfolding matches_method_signature
first_match sig [] = none
first_match sig (m ∷ ms) =
    let rest = first_match sig ms in if matches_method_signature sig m then some m else rest

abbrev pub methods_of : Option Member → List Method
methods_of none = []
methods_of (some (method m)) = m ∷ []
methods_of (some (overload_set ms)) = ms
methods_of (some (plain a)) = []

abbrev pub or_else : Option Method → Option Method → Option Method
or_else none rest = rest
or_else (some m) rest = some m

-- The loop over the bases. Of a name that stands for a method or an overload set the methods are
-- tried in order.
unfoldable pub find_virtual_base_method : Chain → Method → Option Method
unfolding first_match find
find_virtual_base_method [] f = none
find_virtual_base_method (c ∷ bases) f =
    or_else (first_match f.sig (methods_of (find c.valsyms f.name)))
      (find_virtual_base_method bases f)

-- The bases of a class of the chain.
unfoldable pub bases_of : ℕ → Chain → Chain
bases_of a [] = []
bases_of a (c ∷ bases) = let rest = bases_of a bases in if c.id == a then bases else rest

abbrev pub same_method : Method → Option Method → Bool
same_method m none = false
same_method m (some n) = m.id == n.id

-- Whether a slot is the one of a method whose virtual base is `base`.
unfoldable pub in_slot : Chain → Method → Option Method → Method → Bool
unfolding find_virtual_base_method bases_of
in_slot chain f base slot = slot.id == f.id || same_method slot base || elim base [
  | none ↦ false
  | some b ↦ same_method b (find_virtual_base_method (bases_of slot.owner chain) slot)
]

unfoldable pub slot_loop : (Method → Bool) → List Method → Option ℕ
slot_loop hit [] = none
slot_loop hit (m ∷ ms) =
    let rest = slot_loop hit ms in
    if hit m then some 0 else elim rest [ none ↦ none | some i ↦ some (suc i) ]

-- The table is that of the class as it is while its methods are registered.
unfoldable pub find_virtual_slot : Class → Chain → List Method → Method → Option ℕ
unfolding slot_loop in_slot
find_virtual_slot c bases table f =
    let base =
      if f.owner == c.id && f.is_override then find_virtual_base_method bases f else some f in
    slot_loop (in_slot (c ∷ bases) f base) table

-- The flags and the table that the update works on.
pub record Flags : Type 0 where
  pub table : List Method
  pub polymorphic : Bool
  pub abstract : Bool

abbrev pub put_slot : List Method → Option ℕ → Method → List Method
put_slot table none m = table
put_slot table (some i) m = set table i m

abbrev pub at_base : Class → Chain → List Method → Method → Option Method → List Method
at_base c bases table m none = table
at_base c bases table m (some b) = put_slot table (find_virtual_slot c bases table b) m

-- An override goes to the slot of its virtual base.
unfoldable pub override_slot : Class → Chain → List Method → Method → List Method
unfolding find_virtual_slot find_virtual_base_method
override_slot c bases table m = at_base c bases table m (find_virtual_base_method bases m)

-- By is_override and is_virtual.
abbrev pub placed : Class → Chain → List Method → Method → Bool → Bool → List Method
placed c bases table m true _ = override_slot c bases table m
placed c bases table m false true = table ++ m ∷ []
placed c bases table m false false = table

unfoldable pub register_method : Class → Chain → Flags → Method → Flags
unfolding override_slot
register_method c bases s m = record {
  table = placed c bases s.table m m.is_override m.is_virtual;
  polymorphic = s.polymorphic || (m.is_virtual || m.is_override);
  abstract = s.abstract || m.is_abstract;
}

unfoldable pub register_all : Class → Chain → Flags → List Method → Flags
unfolding register_method
register_all c bases s [] = s
register_all c bases s (m ∷ ms) = register_all c bases (register_method c bases s m) ms

-- The methods in the order in which the loop comes to them.
unfoldable pub methods_in : Map Member → List Method
methods_in [] = []
methods_in ((name, v) ∷ m) = methods_of (some v) ++ methods_in m

unfoldable pub any_abstract : List Method → Bool
any_abstract [] = false
any_abstract (m ∷ ms) = m.is_abstract || any_abstract ms

abbrev pub start_flags : Chain → Flags
start_flags [] = record { table = []; polymorphic = false; abstract = false }
start_flags (b ∷ bases) = record {
  table = b.virtual_methods;
  polymorphic = b.is_polymorphic;
  abstract = false;
}

unfoldable pub update_object_inheritance_flags : Class → Chain → Class
unfolding register_all methods_in any_abstract
update_object_inheritance_flags c bases =
    let s = register_all c bases (start_flags bases) (methods_in c.valsyms) in
    record c {
      virtual_methods = s.table;
      is_polymorphic = s.polymorphic;
      is_abstract = s.abstract || any_abstract s.table;
    }
