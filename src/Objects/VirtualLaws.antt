-- ===== src/Objects/VirtualLaws.antt =====
-- The virtual table of a class: what UpdateObjectInheritanceFlags does to the slots of the base.
use dq_lang.Calls.Signatures.{}
use dq_lang.Objects.Classes.{Method, Chain, Class, Member}
use dq_lang.Objects.Virtual.{
  find_virtual_base_method, bases_of, in_slot, slot_loop, find_virtual_slot, put_slot,
  override_slot, Flags, register_method, register_all, methods_of, placed, methods_in, start_flags,
  update_object_inheritance_flags,
}
use dq_lang.Objects.Keys.{Key, key, Known, ClassOk, find_virtual_base_method-key, MemberOk}
use dq_lang.Scopes.Maps.{Map}
use dq_lang.Prelude.{
  ℕ, suc, ◌≡◌, refl, sym, ap, ◌∙◌, inl, inr, Bool, true, false, none, some, List, [], ◌∷◌, map,
  arith, ◌==◌, Bool-cases, Option-cases, set, All, zero, not, ◌&&◌, Option, if◌then◌else◌, ◌++◌,
  append-nil, All-append, Bytes,
}

bases_of-ClassOk :
    (at : ℕ → Key) (a : ℕ) (chain : Chain)
    → All (ClassOk at) chain
    → All (ClassOk at) (bases_of a chain)
unfolding bases_of
bases_of-ClassOk at a [] h = tt
bases_of-ClassOk at a (c ∷ bases) (hc, h) = elim (Bool-cases (c.id == a)) [
  | inl e ↦ rw e h
  | inr e ↦ rw e (bases_of-ClassOk at a bases h)
]

same_id-key :
    (at : ℕ → Key) (m n : Method) → Known at m → Known at n → (m.id == n.id) ≡ true → key m ≡ key n
same_id-key at m n h k e = let same : m.id ≡ n.id = ground arith in h ∙ ap at same ∙ sym k

-- A slot that FindVirtualSlot takes for the one of a method is called as the method is.
in_slot-key :
    (at : ℕ → Key) (chain : Chain) (f b slot : Method)
    → All (ClassOk at) chain
    → Known at f
    → Known at b
    → Known at slot
    → key b ≡ key f
    → in_slot chain f (some b) slot ≡ true
    → key slot ≡ key f
unfolding in_slot
in_slot-key at chain f b slot h kf kb ks same e = elim (Bool-cases (slot.id == f.id)) [
  | inl i ↦ same_id-key at slot f ks kf i
  | inr i ↦ elim (Bool-cases (slot.id == b.id)) [
    | inl j ↦ same_id-key at slot b ks kb j ∙ same
    | inr j ↦ elim (Option-cases (find_virtual_base_method (bases_of slot.owner chain) slot)) [
      | inl n ↦ let no : false ≡ true = rw (i, j, n) at e in cc
      | inr (d, n) ↦
          let hit : (b.id == d.id) ≡ true = rw (i, j, n) at e in
          let (found, kd) =
            find_virtual_base_method-key at (bases_of slot.owner chain) slot d
              (bases_of-ClassOk at slot.owner chain h) n in
          found ∙ sym (same_id-key at b d kb kd hit) ∙ same
    ]
  ]
]

-- A slot that is overwritten by a method that is called alike.
set-keys :
    (hit : Method → Bool) (table : List Method) (i : ℕ) (m : Method)
    → All (λ (s : Method). hit s ≡ true → key s ≡ key m) table
    → slot_loop hit table ≡ some i
    → map key (set table i m) ≡ map key table
unfolding slot_loop
set-keys hit [] i m h e = cc
set-keys hit (s ∷ table) i m (hs, h) e = elim (Bool-cases (hit s)) [
  | inl t ↦
      let first : some 0 ≡ some i = rw t at e in let zero_th : i ≡ 0 = cc in rw (zero_th, hs t) refl
  | inr t ↦ elim (Option-cases (slot_loop hit table)) [
    | inl n ↦ let no : none ≡ some i = rw (t, n) at e in cc
    | inr (j, n) ↦
        let later : some (suc j) ≡ some i = rw (t, n) at e in
        let next_one : i ≡ suc j = cc in rw next_one (ap (◌∷◌ (key s)) (set-keys hit table j m h n))
  ]
]

in_slot-keys :
    (at : ℕ → Key) (chain : Chain) (f m : Method) (base : Option Method) (table : List Method)
    → All (ClassOk at) chain
    → Known at f
    → ((b : Method) → base ≡ some b → (key b ≡ key f) × Known at b)
    → key f ≡ key m
    → All (Known at) table
    → All (λ (s : Method). in_slot chain f base s ≡ true → key s ≡ key m) table
in_slot-keys at chain f m base [] h kf kb same ks = tt
in_slot-keys at chain f m none (s ∷ table) h kf kb same (k, ks) = (
  λ e. same_id-key at s f k kf (unfold in_slot in ground arith) ∙ same,
  in_slot-keys at chain f m none table h kf kb same ks,
)
in_slot-keys at chain f m (some b) (s ∷ table) h kf kb same (k, ks) =
    let (alike, known) = kb b refl in
    (
      λ e. in_slot-key at chain f b s h kf known k alike e ∙ same,
      in_slot-keys at chain f m (some b) table h kf kb same ks,
    )

put_slot-keys :
    (hit : Method → Bool) (table : List Method) (m : Method) (o : Option ℕ)
    → slot_loop hit table ≡ o
    → All (λ (s : Method). hit s ≡ true → key s ≡ key m) table
    → map key (put_slot table o m) ≡ map key table
put_slot-keys hit table m none e h = refl
put_slot-keys hit table m (some i) e h = set-keys hit table i m h e

-- The virtual base that FindVirtualSlot looks for is called as the method.
slot_base-key :
    (at : ℕ → Key) (bases : Chain) (own : Bool) (f b : Method)
    → All (ClassOk at) bases
    → Known at f
    → (if own then find_virtual_base_method bases f else some f) ≡ some b
    → (key b ≡ key f) × Known at b
slot_base-key at bases true f b h k e =
    let (same, known) = find_virtual_base_method-key at bases f b h e in (sym same, known)
slot_base-key at bases false f b h k e = let same : f ≡ b = cc in (ap key (sym same), rw same at k)

override_slot-keys :
    (at : ℕ → Key) (c : Class) (bases : Chain) (table : List Method) (m : Method)
    → All (ClassOk at) (c ∷ bases)
    → All (Known at) table
    → map key (override_slot c bases table m) ≡ map key table
unfolding override_slot find_virtual_slot
override_slot-keys at c bases table m (hc, h) ks =
    elim (Option-cases (find_virtual_base_method bases m)) [
      | inl n ↦ rw n refl
      | inr (b, n) ↦
          let (same, known) = find_virtual_base_method-key at bases m b h n in
          let own : Bool = b.owner == c.id && b.is_override in
          let base : Option Method = if own then find_virtual_base_method bases b else some b in
          rw n (
            put_slot-keys (in_slot (c ∷ bases) b base) table m _ refl (
              in_slot-keys at (c ∷ bases) b m base table (hc, h) known
                (λ d e. slot_base-key at bases own b d h known e) (sym same) ks))
    ]

set-Known :
    (at : ℕ → Key) (table : List Method) (i : ℕ) (m : Method)
    → Known at m
    → All (Known at) table
    → All (Known at) (set table i m)
set-Known at [] i m k ks = tt
set-Known at (s ∷ table) zero m k (ks, rest) = (k, rest)
set-Known at (s ∷ table) (suc i) m k (ks, rest) = (ks, set-Known at table i m k rest)

put_slot-Known :
    (at : ℕ → Key) (table : List Method) (o : Option ℕ) (m : Method)
    → Known at m
    → All (Known at) table
    → All (Known at) (put_slot table o m)
put_slot-Known at table none m k ks = ks
put_slot-Known at table (some i) m k ks = set-Known at table i m k ks

override_slot-Known :
    (at : ℕ → Key) (c : Class) (bases : Chain) (table : List Method) (m : Method)
    → Known at m
    → All (Known at) table
    → All (Known at) (override_slot c bases table m)
unfolding override_slot
override_slot-Known at c bases table m k ks =
    elim (Option-cases (find_virtual_base_method bases m)) [
      | inl n ↦ rw n ks
      | inr (b, n) ↦ rw n (put_slot-Known at table (find_virtual_slot c bases table b) m k ks)
    ]

-- The methods that get a slot of their own.
unfoldable pub new_methods : List Method → List Method
new_methods [] = []
new_methods (m ∷ ms) =
    let rest = new_methods ms in if not m.is_override && m.is_virtual then m ∷ rest else rest

new_method-keys :
    (m : Method) (table news : List Method)
    → map key (table ++ m ∷ []) ++ map key news ≡ map key table ++ map key (m ∷ news)
new_method-keys m [] news = refl
new_method-keys m (s ∷ table) news = ap (◌∷◌ (key s)) (new_method-keys m table news)

placed-keys :
    (at : ℕ → Key) (c : Class) (bases : Chain) (table : List Method) (m : Method) (o v : Bool)
    (news : List Method)
    → All (ClassOk at) (c ∷ bases)
    → All (Known at) table
    → map key (placed c bases table m o v) ++ map key news
      ≡ map key table ++ map key (if not o && v then m ∷ news else news)
placed-keys at c bases table m true v news h ks =
    ap (λ t. t ++ map key news) (override_slot-keys at c bases table m h ks)
placed-keys at c bases table m false true news h ks = new_method-keys m table news
placed-keys at c bases table m false false news h ks = refl

placed-Known :
    (at : ℕ → Key) (c : Class) (bases : Chain) (table : List Method) (m : Method) (o v : Bool)
    → Known at m
    → All (Known at) table
    → All (Known at) (placed c bases table m o v)
placed-Known at c bases table m true v k ks = override_slot-Known at c bases table m k ks
placed-Known at c bases table m false true k ks = All-append (Known at) table (m ∷ []) ks (k, tt)
placed-Known at c bases table m false false k ks = ks

register_all-keys :
    (at : ℕ → Key) (c : Class) (bases : Chain) (s : Flags) (ms : List Method)
    → All (ClassOk at) (c ∷ bases)
    → All (Known at) ms
    → All (Known at) s.table
    → map key (register_all c bases s ms).table ≡ map key s.table ++ map key (new_methods ms)
unfolding register_all register_method new_methods
register_all-keys at c bases s [] h k ks = sym (append-nil (map key s.table))
register_all-keys at c bases s (m ∷ ms) h (k, rest) ks =
    register_all-keys at c bases (register_method c bases s m) ms h rest
      (placed-Known at c bases s.table m m.is_override m.is_virtual k ks)
    ∙ placed-keys at c bases s.table m m.is_override m.is_virtual (new_methods ms) h ks

methods_of-Known :
    (at : ℕ → Key) (name : Bytes) (ms : List Method)
    → All (λ (m : Method). (m.name ≡ name) × Known at m) ms
    → All (Known at) ms
methods_of-Known at name [] h = tt
methods_of-Known at name (m ∷ ms) ((_, k), h) = (k, methods_of-Known at name ms h)

methods_in-Known :
    (at : ℕ → Key) (vs : Map Member) → All (MemberOk at) vs → All (Known at) (methods_in vs)
unfolding methods_in
methods_in-Known at [] h = tt
methods_in-Known at ((name, v) ∷ vs) (hv, h) =
    All-append (Known at) (methods_of (some v)) (methods_in vs)
      (methods_of-Known at name (methods_of (some v)) hv) (methods_in-Known at vs h)

-- virtual_methods of the base, where there is one.
abbrev pub base_table : Chain → List Method
base_table [] = []
base_table (b ∷ bases) = b.virtual_methods

start_table : (bases : Chain) → (start_flags bases).table ≡ base_table bases
start_table [] = refl
start_table (b ∷ bases) = refl

-- Where an address stands for one method and the members stand under their own names,
-- UpdateObjectInheritanceFlags keeps what every slot of the base's virtual table is called by, the
-- name, the result and the parameters without the receiver, and puts the virtual methods that are
-- no overrides behind these slots, in the order of the members. An override gets no slot of its own.
pub update_object_inheritance_flags-keys :
    (at : ℕ → Key) (c : Class) (bases : Chain)
    → All (ClassOk at) (c ∷ bases)
    → All (Known at) (base_table bases)
    → map key (update_object_inheritance_flags c bases).virtual_methods
      ≡ map key (base_table bases) ++ map key (new_methods (methods_in c.valsyms))
unfolding update_object_inheritance_flags
update_object_inheritance_flags-keys at c bases (hc, h) ks =
    let same = start_table bases in
    register_all-keys at c bases (start_flags bases) (methods_in c.valsyms) (hc, h)
      (methods_in-Known at c.valsyms hc) (rw same ks)
    ∙ ap (λ t. map key t ++ map key (new_methods (methods_in c.valsyms))) same
