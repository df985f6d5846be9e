-- ===== src/Objects/ContractLaws.antt =====
-- The slots of constructor contracts and whether a class that supports a contract fills them.
use dq_lang.Calls.Signatures.{has_address, is_same_or_derived_from}
use dq_lang.Objects.Classes.{Method, Class, Chain}
use dq_lang.Objects.Virtual.{same_user_params}
use dq_lang.Objects.Contracts.{
  user_signatures_match, find_create, find_user_match, find_constructor_matching_signature,
  is_empty, has_slot, add_slots, match_slots, default_slot, constructor_contract_slots, takes,
  is_found, supports, supports_all, supports_constructor_contract_from,
}
use dq_lang.Prelude.{
  ℕ, ◌-◌, ◌≡◌, refl, inl, inr, true, not, ◌&&◌, ◌||◌, Option, none, some, List, [], ◌∷◌, ◌++◌,
  arith, ◌==◌, Bool-cases, length, ◌<◌, false, ==_refl, ==_ne,
}

-- Every contract of the first list is answered at the same place of the second.
unfoldable pub Answers : List (Option Method) → List (Option Method) → Type 0
Answers [] slots = Unit
Answers (k ∷ ks) [] = ⊥
Answers (k ∷ ks) (s ∷ slots) = (takes k s ≡ true) × Answers ks slots

find_user_match-takes :
    (k : Method) (ctors : List Method)
    → is_found (find_user_match k ctors) ≡ true
    → takes (some k) (find_user_match k ctors) ≡ true
unfolding find_user_match
find_user_match-takes k [] h = cc
find_user_match-takes k (c ∷ ctors) h = elim (Bool-cases (user_signatures_match k.sig c.sig)) [
  | inl e ↦ rw (e, e) refl
  | inr e ↦ rw e (find_user_match-takes k ctors (rw e at h))
]

find_create-takes :
    (ctors : List Method)
    → is_found (find_create 0 ctors) ≡ true
    → takes none (find_create 0 ctors) ≡ true
unfolding find_create
find_create-takes [] h = refl
find_create-takes (c ∷ ctors) h =
    elim (Bool-cases (not (length c.sig.params == 0) && length c.sig.params - 1 == 0)) [
      | inl e ↦ let one : (length c.sig.params == 1) ≡ true = ground arith in rw (e, one) refl
      | inr e ↦ rw e (find_create-takes ctors (rw e at h))
    ]

supports-takes :
    (c : Class) (k : Option Method)
    → supports c k ≡ true
    → takes k (find_constructor_matching_signature c k) ≡ true
unfolding find_constructor_matching_signature
supports-takes c none h = no_constructor c.constructors h
  where
    no_constructor :
        (ctors : List Method)
        → (is_empty ctors || is_found (find_create 0 ctors)) ≡ true
        → takes none (find_create 0 ctors) ≡ true
    no_constructor [] h = unfold find_create in refl
    no_constructor (d ∷ ds) h = find_create-takes (d ∷ ds) h
supports-takes c (some k) h = find_user_match-takes k c.constructors h

match_slots-Answers :
    (c : Class) (ks slots : List (Option Method))
    → supports_all c ks ≡ true
    → Answers ks (match_slots c ks ++ slots)
unfolding Answers match_slots supports_all
match_slots-Answers c [] slots h = tt
match_slots-Answers c (k ∷ ks) slots h =
    (supports-takes c k (ground arith), match_slots-Answers c ks slots (ground arith))

Answers-append :
    (ks slots more : List (Option Method)) → Answers ks slots → Answers ks (slots ++ more)
unfolding Answers
Answers-append [] slots more h = tt
Answers-append (k ∷ ks) [] more h = absurd h
Answers-append (k ∷ ks) (s ∷ slots) more (t, h) = (t, Answers-append ks slots more h)

add_slots-Answers :
    (ks slots : List (Option Method)) (ctors : List Method)
    → Answers ks slots
    → Answers ks (add_slots slots ctors)
unfolding add_slots
add_slots-Answers ks slots [] h = h
add_slots-Answers ks slots (c ∷ ctors) h = elim (Bool-cases (has_slot c slots)) [
  | inl e ↦ rw e (add_slots-Answers ks slots ctors h)
  | inr e ↦
      rw e (
        add_slots-Answers ks (slots ++ some c ∷ []) ctors (Answers-append ks slots (some c ∷ []) h))
]

constructor_contract_slots_step :
    (c : Class) (bases : Chain)
    → (let ks = constructor_contract_slots bases in
        Answers ks (add_slots (match_slots c ks ++ default_slot c) c.constructors))
    → Answers (constructor_contract_slots bases) (constructor_contract_slots (c ∷ bases))
constructor_contract_slots_step c bases h = unfold constructor_contract_slots in h

-- Where a class supports the constructor contract of its direct base, the slots of its contract
-- begin with those of the base, each filled with a constructor of that signature, or for the
-- default with one without user parameters or with the trivial one.
pub constructor_contract_slots-Answers :
    (root : ℕ) (c b : Class) (up : Chain)
    → supports_constructor_contract_from root c (b ∷ up) (b ∷ up) ≡ true
    → Answers (constructor_contract_slots (b ∷ up)) (constructor_contract_slots (c ∷ b ∷ up))
unfolding supports_constructor_contract_from
constructor_contract_slots-Answers root c b up h =
    let ks = constructor_contract_slots (b ∷ up) in
    constructor_contract_slots_step c (b ∷ up) (
      add_slots-Answers ks (match_slots c ks ++ default_slot c) c.constructors
        (match_slots-Answers c ks (default_slot c) (ground arith)))

add_slots-head :
    (s : Option Method) (slots : List (Option Method)) (ctors : List Method)
    → (rest : List (Option Method)) × (add_slots (s ∷ slots) ctors ≡ s ∷ rest)
unfolding add_slots
add_slots-head s slots [] = (slots, refl)
add_slots-head s slots (c ∷ ctors) = elim (Bool-cases (has_slot c (s ∷ slots))) [
  | inl e ↦ rw e (add_slots-head s slots ctors)
  | inr e ↦ rw e (add_slots-head s (slots ++ some c ∷ []) ctors)
]

first_slot :
    (c : Class) (bases : Chain) (k : Option Method) (ks : List (Option Method))
    → constructor_contract_slots bases ≡ k ∷ ks
    → (rest : List (Option Method)) × (constructor_contract_slots (c ∷ bases)
        ≡ find_constructor_matching_signature c k ∷ rest)
unfolding constructor_contract_slots match_slots
first_slot c bases k ks e = rw e (
    add_slots-head (find_constructor_matching_signature c k) (match_slots c ks ++ default_slot c)
      c.constructors)

only_slot :
    (a : Class) (k : Method)
    → a.constructors ≡ k ∷ []
    → constructor_contract_slots (a ∷ []) ≡ some k ∷ []
unfolding constructor_contract_slots match_slots add_slots has_slot
only_slot a k e = rw e refl

create_no_match :
    (k : Method) (ctors : List Method) (d : Method)
    → 1 < length k.sig.params
    → find_create 0 ctors ≡ some d
    → user_signatures_match k.sig d.sig ≡ false
unfolding find_create user_signatures_match same_user_params
create_no_match k [] d many h = cc
create_no_match k (c ∷ ctors) d many h =
    elim (Bool-cases (not (length c.sig.params == 0) && length c.sig.params - 1 == 0)) [
      | inl e ↦
          let found : some c ≡ some d = rw e at h in
          let same : c ≡ d = cc in
          let sizes : length c.sig.params ≡ 1 = ground arith in
          let apart : (length k.sig.params == length d.sig.params) ≡ false =
            rw same at
              (==_ne (length k.sig.params) (length c.sig.params) (λ q. omega (arith, q))) in
          rw apart (ground arith)
      | inr e ↦ create_no_match k ctors d many (rw e at h)
    ]

supported :
    (root : ℕ) (a b c : Class) (k m : Method)
    → constructor_contract_slots (a ∷ []) ≡ some k ∷ []
    → find_user_match k c.constructors ≡ some m
    → supports_constructor_contract_from root c (b ∷ a ∷ []) (a ∷ []) ≡ true
unfolding supports_constructor_contract_from supports_all is_same_or_derived_from has_address
    find_constructor_matching_signature
supported root a b c k m slots found = rw (slots, found) (ground (arith, ==_refl a.id))

-- Let `a` have one constructor, with user parameters; `b` derived from `a` has none of that
-- signature; and `c` derived from `b` has one of that signature and one without user
-- parameters. Then `c` supports the contract of `a`, in which slot 0 is the constructor of `a`, but
-- slot 0 of `c` is the first constructor of `c` without user parameters, which has another
-- signature.
pub constructor_contract_slots_lost :
    (root : ℕ) (a b c : Class) (k m d : Method)
    → a.constructors ≡ k ∷ []
    → 1 < length k.sig.params
    → find_user_match k b.constructors ≡ none
    → find_user_match k c.constructors ≡ some m
    → find_create 0 c.constructors ≡ some d
    → (supports_constructor_contract_from root c (b ∷ a ∷ []) (a ∷ []) ≡ true)
      × (constructor_contract_slots (a ∷ []) ≡ some k ∷ [])
      × ((rest : List (Option Method)) × (constructor_contract_slots (c ∷ b ∷ a ∷ [])
            ≡ some d ∷ rest))
      × (user_signatures_match k.sig d.sig ≡ false)
unfolding find_constructor_matching_signature
constructor_contract_slots_lost root a b c k m d one many lost found create =
    let slots_a = only_slot a k one in
    let (rest_b, slots_b) = first_slot b (a ∷ []) (some k) [] slots_a in
    let empty : constructor_contract_slots (b ∷ a ∷ []) ≡ none ∷ rest_b = rw lost at slots_b in
    let (rest_c, slots_c) = first_slot c (b ∷ a ∷ []) none rest_b empty in
    (
      supported root a b c k m slots_a found,
      slots_a,
      (rest_c, rw create at slots_c),
      create_no_match k c.constructors d many create,
    )
