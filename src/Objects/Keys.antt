-- ===== src/Objects/Keys.antt =====
-- What a virtual method is called by, and what the search for a virtual base method finds.
use dq_lang.Calls.Signatures.{
  Param, ParamMode, same_mode, ParamType, resolve_alias, address, same_params, same_return,
}
use dq_lang.Objects.Classes.{Method, Class, Member, Chain}
use dq_lang.Objects.Virtual.{
  same_user_params, matches_method_signature, first_match, methods_of, find_virtual_base_method,
}
use dq_lang.Scopes.Maps.{Map, find}
use dq_lang.Prelude.{
  ℕ, ◌≡◌, refl, sym, inl, inr, Bool, true, Option, none, some, List, [], ◌∷◌, arith, Bool-cases,
  Option-cases, length, drop, All, same_text, same_text-eq, Bytes,
}

-- What a method is called by: its name, its result and its parameters without the receiver.
pub record Key : Type 0 where
  pub name : Bytes
  pub has_varargs : Bool
  pub rettype : Option ℕ
  pub size : ℕ
  pub params : List (ParamMode × ℕ)

abbrev pub type_of : ParamType → ℕ
type_of t = address (resolve_alias t)

abbrev pub ret_of : Option ParamType → Option ℕ
ret_of none = none
ret_of (some t) = some (type_of t)

abbrev pub param_key : Param → ParamMode × ℕ
param_key p = (p.mode, type_of p.ptype)

abbrev pub param_keys : List Param → List (ParamMode × ℕ)
param_keys [] = []
param_keys (p ∷ ps) = param_key p ∷ param_keys ps

unfoldable pub key : Method → Key
key m = record {
  name = m.name;
  has_varargs = m.sig.has_varargs;
  rettype = ret_of m.sig.rettype;
  size = length m.sig.params;
  params = param_keys (drop 1 m.sig.params);
}

same_mode_eq : (m n : ParamMode) → same_mode m n ≡ true → m ≡ n
unfolding same_mode
same_mode_eq m n h = ground arith

same_params_eq :
    (ps qs : List Param) → same_params true ps qs ≡ true → param_keys ps ≡ param_keys qs
unfolding same_params
same_params_eq [] [] h = refl
same_params_eq [] (q ∷ qs) h = cc
same_params_eq (p ∷ ps) [] h = cc
same_params_eq (p ∷ ps) (q ∷ qs) h =
    let modes : p.mode ≡ q.mode = ground (arith, same_mode_eq p.mode q.mode) in
    let types : type_of p.ptype ≡ type_of q.ptype = ground arith in
    let rest : param_keys ps ≡ param_keys qs = ground (arith, same_params_eq ps qs) in
    rw (modes, types, rest) refl

same_return_eq : (t u : Option ParamType) → same_return t u ≡ true → ret_of t ≡ ret_of u
unfolding same_return
same_return_eq none none h = refl
same_return_eq none (some u) h = cc
same_return_eq (some t) none h = cc
same_return_eq (some t) (some u) h = let e : type_of t ≡ type_of u = ground arith in rw e refl

matches-key :
    (f m : Method) → f.name ≡ m.name → matches_method_signature f.sig m ≡ true → key f ≡ key m
unfolding matches_method_signature same_user_params key
matches-key f m n h =
    let varargs : f.sig.has_varargs ≡ m.sig.has_varargs = ground arith in
    let sizes : length f.sig.params ≡ length m.sig.params = ground arith in
    let ret : ret_of f.sig.rettype ≡ ret_of m.sig.rettype =
      ground (arith, same_return_eq f.sig.rettype m.sig.rettype) in
    let params : param_keys (drop 1 f.sig.params) ≡ param_keys (drop 1 m.sig.params) =
      ground (arith, same_params_eq (drop 1 f.sig.params) (drop 1 m.sig.params)) in
    λ i. record {
      name = n i;
      has_varargs = varargs i;
      rettype = ret i;
      size = sizes i;
      params = params i;
    }

-- An address stands for one method: `at` gives what that is called by.
abbrev pub Known : (ℕ → Key) → Method → Type 0
Known at m = key m ≡ at m.id

-- The symbols of a class stand under their own names.
abbrev pub MemberOk : (ℕ → Key) → Bytes × Member → Type 0
MemberOk at (name, v) = All (λ (m : Method). (m.name ≡ name) × Known at m) (methods_of (some v))

abbrev pub ClassOk : (ℕ → Key) → Class → Type 0
ClassOk at c = All (MemberOk at) c.valsyms

find-MemberOk :
    (at : ℕ → Key) (vs : Map Member) (name : Bytes)
    → All (MemberOk at) vs
    → All (λ (m : Method). (m.name ≡ name) × Known at m) (methods_of (find vs name))
unfolding find
find-MemberOk at [] name h = tt
find-MemberOk at ((n, v) ∷ vs) name (hv, h) = elim (Bool-cases (same_text n name)) [
  | inl e ↦ let same : n ≡ name = same_text-eq n name e in rw e (rw (sym same) hv)
  | inr e ↦ rw e (find-MemberOk at vs name h)
]

first_match-key :
    (at : ℕ → Key) (f : Method) (ms : List Method) (b : Method)
    → All (λ (m : Method). (m.name ≡ f.name) × Known at m) ms
    → first_match f.sig ms ≡ some b
    → (key f ≡ key b) × Known at b
unfolding first_match
first_match-key at f [] b h e = cc
first_match-key at f (m ∷ ms) b ((n, k), h) e =
    elim (Bool-cases (matches_method_signature f.sig m)) [
      | inl t ↦
          let found : some m ≡ some b = rw t at e in
          let same : m ≡ b = cc in
          let result : (key f ≡ key m) × Known at m = (matches-key f m (sym n) t, k) in
          rw same at result
      | inr t ↦ first_match-key at f ms b h (rw t at e)
    ]

pub find_virtual_base_method-key :
    (at : ℕ → Key) (chain : Chain) (f b : Method)
    → All (ClassOk at) chain
    → find_virtual_base_method chain f ≡ some b
    → (key f ≡ key b) × Known at b
unfolding find_virtual_base_method
find_virtual_base_method-key at [] f b h e = cc
find_virtual_base_method-key at (c ∷ bases) f b (hc, h) e =
    elim (Option-cases (first_match f.sig (methods_of (find c.valsyms f.name)))) [
      | inl n ↦ find_virtual_base_method-key at bases f b h (rw n at e)
      | inr (m, s) ↦
          let found : some m ≡ some b = rw s at e in
          let same : m ≡ b = cc in
          let hit : first_match f.sig (methods_of (find c.valsyms f.name)) ≡ some b =
            rw same at s in
          first_match-key at f (methods_of (find c.valsyms f.name)) b
            (find-MemberOk at c.valsyms f.name hc) hit
    ]
