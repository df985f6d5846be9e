-- ===== src/Objects/Contracts.antt =====
-- Constructor contracts: what a class promises to whoever creates an object through a reference to
-- one of its base types. FindSpecialMethod at OSF_CREATE, FindConstructorMatchingSignature,
-- ConstructorContractSlots, SupportsConstructorContractFrom and FindConstructorContractSlot of
-- compiler/types/otype_compound.cpp, and UserSignaturesMatch of compiler/types/otype_func.cpp. A
-- null constructor in a slot, the trivial default, is `none`.
use dq_lang.Calls.Signatures.{Signature, is_same_or_derived_from}
use dq_lang.Objects.Classes.{Method, Class, Chain}
use dq_lang.Objects.Virtual.{same_user_params}
use dq_lang.Prelude.{
  ℕ, suc, ◌-◌, Bool, true, false, not, ◌&&◌, ◌||◌, Option, none, some, List, [], ◌∷◌, ◌++◌, ◌==◌,
  if◌then◌else◌, length,
}

unfoldable pub user_signatures_match : Signature → Signature → Bool
unfolding same_user_params
user_signatures_match l r =
    not (length l.params == 0)
    && not (length r.params == 0)
    && not l.has_varargs
    && not r.has_varargs
    && same_user_params l.params r.params

-- FindSpecialMethod(OSF_CREATE, n)
unfoldable pub find_create : ℕ → List Method → Option Method
find_create n [] = none
find_create n (c ∷ ctors) =
    let rest = find_create n ctors in
    if not (length c.sig.params == 0) && length c.sig.params - 1 == n then some c else rest

unfoldable pub find_user_match : Method → List Method → Option Method
unfolding user_signatures_match
find_user_match contract [] = none
find_user_match contract (c ∷ ctors) =
    let rest = find_user_match contract ctors in
    if user_signatures_match contract.sig c.sig then some c else rest

unfoldable pub find_constructor_matching_signature : Class → Option Method → Option Method
unfolding find_create find_user_match
find_constructor_matching_signature c none = find_create 0 c.constructors
find_constructor_matching_signature c (some contract) = find_user_match contract c.constructors

abbrev pub is_empty {ℓ} : {A : Type ℓ} → List A → Bool
is_empty [] = true
is_empty (x ∷ xs) = false

unfoldable pub has_default_contract : List Method → Bool
has_default_contract [] = false
has_default_contract (c ∷ ctors) = length c.sig.params == 1 || has_default_contract ctors

-- `existing == ctor || existing->UserSignaturesMatch(ctor)`
abbrev pub covers : Method → Option Method → Bool
covers ctor none = false
covers ctor (some existing) = existing.id == ctor.id || user_signatures_match existing.sig ctor.sig

unfoldable pub has_slot : Method → List (Option Method) → Bool
unfolding user_signatures_match
has_slot ctor [] = false
has_slot ctor (s ∷ slots) = covers ctor s || has_slot ctor slots

unfoldable pub add_slots : List (Option Method) → List Method → List (Option Method)
unfolding has_slot
add_slots slots [] = slots
add_slots slots (c ∷ ctors) =
    add_slots (if has_slot c slots then slots else slots ++ some c ∷ []) ctors

-- The slots that come from the base are matched anew.
unfoldable pub match_slots : Class → List (Option Method) → List (Option Method)
unfolding find_constructor_matching_signature
match_slots c [] = []
match_slots c (s ∷ slots) = find_constructor_matching_signature c s ∷ match_slots c slots

abbrev pub default_slot : Class → List (Option Method)
default_slot c =
    if is_empty c.constructors && not (has_default_contract c.constructors) then none ∷ [] else []

unfoldable pub constructor_contract_slots : Chain → List (Option Method)
unfolding add_slots match_slots has_default_contract
constructor_contract_slots [] = []
constructor_contract_slots (c ∷ bases) =
    add_slots (match_slots c (constructor_contract_slots bases) ++ default_slot c) c.constructors

-- Whether a slot is the one of a contract.
abbrev pub takes : Option Method → Option Method → Bool
takes none none = true
takes none (some s) = length s.sig.params == 1
takes (some contract) none = false
takes (some contract) (some s) = user_signatures_match contract.sig s.sig

unfoldable pub slot_of : Option Method → List (Option Method) → Option ℕ
unfolding user_signatures_match
slot_of contract [] = none
slot_of contract (s ∷ slots) =
    let rest = slot_of contract slots in
    if takes contract s then some 0 else elim rest [ none ↦ none | some i ↦ some (suc i) ]

unfoldable pub find_constructor_contract_slot : Chain → Option Method → Option ℕ
unfolding slot_of constructor_contract_slots
find_constructor_contract_slot chain contract = slot_of contract (constructor_contract_slots chain)

abbrev pub is_found {ℓ} : {A : Type ℓ} → Option A → Bool
is_found none = false
is_found (some a) = true

-- One contract of the base.
abbrev pub supports : Class → Option Method → Bool
supports c none = is_empty c.constructors || is_found (find_constructor_matching_signature c none)
supports c (some contract) = is_found (find_constructor_matching_signature c (some contract))

unfoldable pub supports_all : Class → List (Option Method) → Bool
unfolding find_constructor_matching_signature
supports_all c [] = true
supports_all c (s ∷ slots) = supports c s && supports_all c slots

abbrev pub ids : Chain → List ℕ
ids [] = []
ids (c ∷ bases) = c.id ∷ ids bases

-- The base's chain; IsSameOrDerivedFrom looks for the base in the chain, `root` stands for the type
-- at the root of all objects.
unfoldable pub supports_constructor_contract_from : ℕ → Class → Chain → Chain → Bool
unfolding supports_all is_same_or_derived_from constructor_contract_slots
supports_constructor_contract_from root c bases [] = false
supports_constructor_contract_from root c bases (b ∷ up) =
    is_same_or_derived_from root c.id true (ids bases) b.id
    && supports_all c (constructor_contract_slots (b ∷ up))
