-- ===== src/Tests/Calls.antt =====
-- Overloads and objects: compiler/types/otype_func.cpp and otype_compound.cpp.
use Prim.Native.String.{String}
use mathlib.Core.List.Permᴰ.{swap}
use dq_lang.Calls.Signatures.{
  Param, Signature, ParamType, resolve_alias, address, fpm_value, pointer, other_type, resolved,
}
use dq_lang.Calls.Candidates.{ArgExpr, CallArg, Compiler}
use dq_lang.Calls.Select.{Func, overload_score, select_overload, selected}
use dq_lang.Calls.SelectLaws.{select_overload-Permᴰ}
use dq_lang.Calls.BestLaws.{IsBest, select_overload_iff}
use dq_lang.Scopes.Maps.{Map}
use dq_lang.Objects.Classes.{Method, Class, Member, method}
use dq_lang.Objects.Virtual.{methods_in, update_object_inheritance_flags}
use dq_lang.Objects.Keys.{Key, key}
use dq_lang.Objects.VirtualLaws.{new_methods, update_object_inheritance_flags-keys}
use dq_lang.Objects.Contracts.{
  user_signatures_match, find_create, find_user_match, constructor_contract_slots,
  supports_constructor_contract_from,
}
use dq_lang.Objects.ContractLaws.{
  Answers, constructor_contract_slots-Answers, constructor_contract_slots_lost,
}
use dq_lang.Prelude.{
  ℕ, ◌≡◌, refl, ◌↔◌, Bool, true, false, Option, none, some, List, [], ◌∷◌, ◌++◌, map, arith, ◌==◌,
  if◌then◌else◌, codes,
}

abbrev int_type : ParamType
int_type = resolved (other_type 1)

abbrev float_type : ParamType
float_type = resolved (other_type 2)

abbrev by_value : ParamType → Param
by_value t = record { name = codes "a"; ptype = t; mode = fpm_value; has_default = false }

abbrev taking : List Param → Signature
taking ps = record { params = ps; has_varargs = false; rettype = none }

abbrev func : ℕ → ParamType → Func
func n t = record { id = n; ptype = some (taking (by_value t ∷ [])) }

-- A conversion between two types costs 1, none costs 0.
abbrev conversions : ParamType → ArgExpr → Option ℕ
conversions t a =
    some (if address (resolve_alias t) == address (resolve_alias a.ptype) then 0 else 1)

abbrev compiler : Compiler
compiler = record { cost = conversions; root_object = 100 }

abbrev int_arg : ArgExpr
int_arg = record {
  id = 7;
  ptype = int_type;
  is_null = false;
  is_lvalue = false;
  is_read_only_text = false;
  root = none;
}

abbrev args : List CallArg
args = record { expr = some int_arg; has_init_diags = false } ∷ []

abbrev overloads : List Func
overloads = func 11 float_type ∷ func 12 int_type ∷ []

select_overload_iff_example :
    (select_overload compiler args overloads ≡ selected (func 12 int_type))
    ↔ IsBest (overload_score compiler args) overloads (func 12 int_type)
select_overload_iff_example = select_overload_iff compiler args overloads (func 12 int_type)

select_overload-Permᴰ_example :
    select_overload compiler args overloads
    ≡ select_overload compiler args (func 12 int_type ∷ func 11 float_type ∷ [])
select_overload-Permᴰ_example =
    select_overload-Permᴰ compiler args overloads (func 12 int_type ∷ func 11 float_type ∷ [])
      (swap refl refl)

-- The overload for an int is chosen for an int.
int_overload : select_overload compiler args overloads ≡ selected (func 12 int_type)
unfolding select_overload
int_overload = refl

abbrev receiver : Param
receiver = by_value (resolved (pointer 50 false))

abbrev virtual_method : ℕ → String → ℕ → Bool → Method
virtual_method n name owner override = record {
  id = n;
  name = codes name;
  sig = taking (receiver ∷ []);
  owner = owner;
  is_virtual = true;
  is_override = override;
  is_abstract = false;
}

abbrev class_of : ℕ → Map Member → List Method → List Method → Class
class_of n vs ctors table = record {
  id = n;
  valsyms = vs;
  member_order = [];
  properties = [];
  constructors = ctors;
  virtual_methods = table;
  is_polymorphic = false;
  is_abstract = false;
}

abbrev draw_base : Method
draw_base = virtual_method 21 "Draw" 31 false

abbrev draw_override : Method
draw_override = virtual_method 22 "Draw" 32 true

abbrev hide_new : Method
hide_new = virtual_method 23 "Hide" 32 false

abbrev shape : Class
shape = class_of 31 ((codes "Draw", method draw_base) ∷ []) [] (draw_base ∷ [])

abbrev circle : Class
circle =
    class_of 32 ((codes "Draw", method draw_override) ∷ (codes "Hide", method hide_new) ∷ []) [] []

abbrev known : ℕ → Key
known n = if n == 23 then key hide_new else key draw_base

update_object_inheritance_flags-keys_example :
    map key (update_object_inheritance_flags circle (shape ∷ [])).virtual_methods
    ≡ map key (draw_base ∷ []) ++ map key (new_methods (draw_override ∷ hide_new ∷ []))
unfolding methods_in
update_object_inheritance_flags-keys_example =
    update_object_inheritance_flags-keys known circle (shape ∷ [])
      ((((refl, unfold key in refl), tt), (((refl, refl), tt), tt)), ((((refl, refl), tt), tt), tt))
      (refl, tt)

abbrev ctor : ℕ → ℕ → List Param → Method
ctor n owner ps = record {
  id = n;
  name = codes "Create";
  sig = taking (receiver ∷ ps);
  owner = owner;
  is_virtual = false;
  is_override = false;
  is_abstract = false;
}

abbrev int_ctor : ℕ → ℕ → Method
int_ctor n owner = ctor n owner (by_value int_type ∷ [])

abbrev class_a : Class
class_a = class_of 41 [] (int_ctor 61 41 ∷ []) []

abbrev class_b : Class
class_b = class_of 42 [] (ctor 62 42 [] ∷ []) []

abbrev class_c : Class
class_c = class_of 43 [] (ctor 63 43 [] ∷ int_ctor 64 43 ∷ []) []

constructor_contract_slots-Answers_example :
    Answers
      (constructor_contract_slots (class_a ∷ []))
      (constructor_contract_slots (class_c ∷ class_a ∷ []))
constructor_contract_slots-Answers_example =
    constructor_contract_slots-Answers 100 class_c class_a []
      (unfold supports_constructor_contract_from in refl)

constructor_contract_slots_lost_example :
    (supports_constructor_contract_from 100 class_c (class_b ∷ class_a ∷ []) (class_a ∷ []) ≡ true)
    × (constructor_contract_slots (class_a ∷ []) ≡ some (int_ctor 61 41) ∷ [])
    × ((rest : List (Option Method)) × (constructor_contract_slots
            (class_c ∷ class_b ∷ class_a ∷ [])
          ≡ some (ctor 63 43 []) ∷ rest))
    × (user_signatures_match (int_ctor 61 41).sig (ctor 63 43 []).sig ≡ false)
constructor_contract_slots_lost_example =
    constructor_contract_slots_lost 100 class_a class_b class_c (int_ctor 61 41) (int_ctor 64 43)
      (ctor 63 43 []) refl (omega arith) (unfold find_user_match in refl)
      (unfold find_user_match in refl) (unfold find_create in refl)
