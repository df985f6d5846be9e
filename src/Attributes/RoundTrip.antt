-- ===== src/Attributes/RoundTrip.antt =====
-- ReadAttributes and ApplyDqmIfAttributes behind WriteDqmIfAttributes.
use dq_lang.Attributes.Bits.{word, has_bit-word, has_bit}
use dq_lang.Attributes.State.{
  IfAttributes, dqmif_attr_flags, dqmif_attr_align_value, dqmif_attr_ext_link_name, Symbol,
  no_attributes, dqmif_attr_section_name, dqmif_attr_link_name, MemberVisibility, ObjectStorageKind,
  mv_private, mv_protected, mv_public, osk_plain, osk_object_ref, osk_object_fixed,
}
use dq_lang.Attributes.Write.{
  flag_bits, is_object_ref, is_object_fixed, is_private, is_protected, write_attributes,
}
use dq_lang.Attributes.Read.{
  is_attribute, read_attribute, read_attributes, stored, aligned, with_storage, visibility,
  apply_attributes, apply_bits,
}
use dq_lang.Attributes.Written.{opt, attribute_recs, Holdable, flags-lt, write_attributes-Wrote}
use dq_lang.DqmIf.Bytes.{le32, le64}
use dq_lang.DqmIf.Reader.{Reader, next_rec, record_bytes, read_i32, read_string, read_u64}
use dq_lang.DqmIf.Scalars.{read_u32-bytes, read_u64-bytes}
use dq_lang.DqmIf.Stream.{Rec, Fits, write_all}
use dq_lang.Prelude.{
  ℕ, ◌+◌, ◌^◌, ◌≤◌, ◌<◌, ◌≡◌, refl, ◌∙◌, ap, Bool, true, false, not, Option, none, some, List, [],
  ◌∷◌, ◌++◌, arith, Bytes, length, ◌-◌, le→ltb, ◌==◌, get_or, ◌||◌, All-append, length-append, ◌≢◌,
}
use mathlib.Core.Path.{fun_ext}
use dq_lang.TypeSpec.Storable.{write_all-append}
use dq_lang.TypeSpec.Records.{Ahead-write_all}
use dq_lang.DqmIf.Records.{reader_at}
use dq_lang.DqmIf.Writer.{Writer, add_rec_bytes}
use dq_lang.Attributes.Taken.{
  Taken, AllTaken, AllTaken-append, AllTaken-opt, advance, read_attributes-AllTaken,
}

flags_round :
    (n : Reader) (a : IfAttributes)
    → n.recid ≡ dqmif_attr_flags
    → read_attribute n a ≡ stored (λ v. record a { flags = v }) (read_u64 n)
unfolding read_attribute
flags_round n a h = rw h

align_round :
    (n : Reader) (a : IfAttributes)
    → n.recid ≡ dqmif_attr_align_value
    → read_attribute n a ≡ aligned a (read_i32 n)
unfolding read_attribute
align_round n a h = rw h

flags_Taken :
    (a : IfAttributes) (v : ℕ)
    → v < 2 ^ 64
    → Taken dqmif_attr_flags (le64 v) a (record a { flags = v })
flags_Taken a v small = record {
  known = refl;
  taken = λ n h.
      flags_round n a h.same_id
      ∙ ap (stored (λ (x : ℕ). record a { flags = x }))
          (read_u64-bytes n v small h.same_length h.same_bytes);
}

align_Taken :
    (a : IfAttributes) (v : ℕ)
    → v < 2 ^ 31
    → Taken dqmif_attr_align_value (le32 v) a (record a { align = v })
unfolding read_i32
align_Taken a v small = record {
  known = refl;
  taken = λ n h.
      let value : read_i32 n ≡ (n, some v) =
        read_u32-bytes n v (omega arith) h.same_length h.same_bytes in
      align_round n a h.same_id ∙ ap (aligned a) value ∙ rw (le→ltb (2 ^ 31 - 1) v (omega arith));
}

ext_Taken :
    (a : IfAttributes) (v : Bytes)
    → Taken dqmif_attr_ext_link_name v a (record a { external_linkage_name = v })
unfolding read_attribute read_string
ext_Taken a v = record { known = refl; taken = λ n h. rw (h.same_bytes, h.same_id) }

section_Taken :
    (a : IfAttributes) (v : Bytes)
    → Taken dqmif_attr_section_name v a (record a { section_name = v })
unfolding read_attribute read_string
section_Taken a v = record { known = refl; taken = λ n h. rw (h.same_bytes, h.same_id) }

link_Taken :
    (a : IfAttributes) (v : Bytes) → Taken dqmif_attr_link_name v a (record a { linkage_name = v })
unfolding read_attribute read_string
link_Taken a v = record { known = refl; taken = λ n h. rw (h.same_bytes, h.same_id) }

-- What is read for a symbol.
abbrev pub stored_attributes : Symbol → Bool → IfAttributes
stored_attributes s extra_external = record {
  flags = word (flag_bits s extra_external);
  align = s.attr_align;
  external_linkage_name = s.attr_external_linkage_name;
  external_module_name = [];
  linkage_name = s.attr_linkage_name;
  section_name = s.attr_section_name;
}

empty_text : (t : Bytes) → not (length t == 0) ≡ false → [] ≡ t
empty_text [] h = refl
empty_text (b ∷ t) h = absurd (ground arith)

zero_number : (n : ℕ) → not (n == 0) ≡ false → 0 ≡ n
zero_number n h = ground arith

attribute_recs-AllTaken :
    (s : Symbol) (extra_external : Bool)
    → Holdable s
    → (s.attr_has_linkage_name ≡ false → [] ≡ s.attr_linkage_name)
    → AllTaken no_attributes (attribute_recs s extra_external) (stored_attributes s extra_external)
attribute_recs-AllTaken s extra_external (align_fits, ext, section, link) named =
    let flags = word (flag_bits s extra_external) in
    let small = flags-lt s extra_external in
    let a1 : IfAttributes = record no_attributes { flags = flags } in
    let a2 : IfAttributes = record a1 { align = s.attr_align } in
    let a3 : IfAttributes = record a2 { external_linkage_name = s.attr_external_linkage_name } in
    let a4 : IfAttributes = record a3 { section_name = s.attr_section_name } in
    let a5 : IfAttributes = record a4 { linkage_name = s.attr_linkage_name } in
    AllTaken-append no_attributes a4 a5 _ _
      (AllTaken-append no_attributes a3 a4 _ _
        (AllTaken-append no_attributes a2 a3 _ _
          (AllTaken-append no_attributes a1 a2 _ _
            (AllTaken-opt _ _ _ no_attributes a1 (flags_Taken no_attributes flags (omega arith))
              (λ e. ap (λ (x : ℕ). record no_attributes { flags = x }) (zero_number flags e)))
            (AllTaken-opt _ _ _ a1 a2 (align_Taken a1 s.attr_align align_fits)
              (λ e. ap (λ (x : ℕ). record a1 { align = x }) (zero_number s.attr_align e))))
          (AllTaken-opt _ _ _ a2 a3 (ext_Taken a2 s.attr_external_linkage_name) (λ e.
            ap (λ (x : Bytes). record a2 { external_linkage_name = x })
              (empty_text s.attr_external_linkage_name e))))
        (AllTaken-opt _ _ _ a3 a4 (section_Taken a3 s.attr_section_name) (λ e.
          ap (λ (x : Bytes). record a3 { section_name = x }) (empty_text s.attr_section_name e))))
      (AllTaken-opt _ _ _ a4 a5 (link_Taken a4 s.attr_linkage_name)
        (λ e. ap (λ (x : Bytes). record a4 { linkage_name = x }) (named e)))

-- The storage of a symbol as CreateValSym makes it: an object is a reference.
abbrev pub made_storage : Option ObjectStorageKind → Option ObjectStorageKind
made_storage none = none
made_storage (some k) = some osk_object_ref

storage_back :
    (o : Option ObjectStorageKind)
    → o ≢ some osk_plain
    → with_storage (made_storage o) (is_object_ref o) (is_object_fixed o) ≡ o
storage_back none h = refl
storage_back (some osk_plain) h = absurd (h refl)
storage_back (some osk_object_ref) h = refl
storage_back (some osk_object_fixed) h = refl

visibility_back : (v : MemberVisibility) → visibility (is_private v) (is_protected v) ≡ v
visibility_back mv_private = refl
visibility_back mv_protected = refl
visibility_back mv_public = refl

or_false : (b : Bool) → (b || false) ≡ b
or_false true = refl
or_false false = refl

-- ApplyDqmIfAttributes gives a symbol other than a function all the attributes that were stored.
apply_attributes-stored_attributes :
    (s fresh : Symbol)
    → s.is_function ≡ false
    → fresh.is_function ≡ false
    → fresh.object_storage ≡ made_storage s.object_storage
    → s.object_storage ≢ some osk_plain
    → apply_attributes fresh (stored_attributes s false) ≡ s
unfolding apply_attributes
apply_attributes-stored_attributes s fresh f f' st object =
    let bits = flag_bits s false in
    let all_bits : (λ (k : ℕ). has_bit k (word bits)) ≡ (λ (k : ℕ). get_or bits k false) =
      fun_ext (λ k. has_bit-word k bits) in
    ap (λ (b : ℕ → Bool). apply_bits fresh b (stored_attributes s false)) all_bits
    ∙ rw
        (
          f',
          st,
          storage_back s.object_storage object,
          visibility_back s.member_visibility,
          or_false s.attr_is_external,
          f,
        )
        refl

length-opt : (b : Bool) (r : Rec) → length (opt b r) ≤ 1
length-opt true r = omega arith
length-opt false r = omega arith

length-append-opt :
    (xs : List Rec) (b : Bool) (r : Rec) (n : ℕ) → length xs ≤ n → length (xs ++ opt b r) ≤ n + 1
length-append-opt xs b r n h = omega (arith, length-append {0} xs (opt b r), length-opt b r)

length-attribute_recs : (s : Symbol) (e : Bool) → length (attribute_recs s e) ≤ 5
length-attribute_recs s e = length-append-opt _ _ _ 4 (
    length-append-opt _ _ _ 3
      (length-append-opt _ _ _ 2 (length-append-opt _ _ _ 1 (length-opt _ _))))

-- The attributes of a symbol other than a function, as WriteDqmIfAttributes writes them, with a record
-- behind them that is no attribute: ReadAttributes reads them and stops at that record, and
-- ApplyDqmIfAttributes on a symbol that CreateValSym has made restores them, if an object's storage is
-- a reference or fixed, the symbol has no link name without the flag for it, and its names and its
-- alignment fit in their records.
pub apply_attributes-read_attributes :
    (s fresh : Symbol) (f recid : ℕ) (d rest : Bytes) (w : Writer) (r : Reader)
    → s.is_function ≡ false
    → fresh.is_function ≡ false
    → fresh.object_storage ≡ made_storage s.object_storage
    → s.object_storage ≢ some osk_plain
    → Holdable s
    → (s.attr_has_linkage_name ≡ false → [] ≡ s.attr_linkage_name)
    → is_attribute recid ≡ false
    → recid < 2 ^ 16
    → length d < 2 ^ 16
    → 5 < f
    → w.error ≡ none
    → let w' = (write_attributes w s false).0 in
      let p = (add_rec_bytes w' recid d).0.payload ++ rest in
      let n = (next_rec (reader_at p (length w.payload) r)).0 in
      ((write_attributes w s false).1 ≡ true)
      × ((m : Reader) × (a : IfAttributes) × (read_attributes f n no_attributes ≡ some (m, some a))
          × (m.recid ≡ recid)
          × (record_bytes m ≡ d)
          × (apply_attributes fresh a ≡ s))
unfolding write_all
apply_attributes-read_attributes s fresh f recid d rest w r no_func fresh_func fresh_storage object
      h named other id_fits small enough fine =
    let (written, fits, _) = write_attributes-Wrote s false w h fine in
    let rs = attribute_recs s false in
    let end_rec : Rec = (recid, d) in
    let all_fit = All-append Fits rs (end_rec ∷ []) fits ((id_fits, small), tt) in
    let (q, ahead, stop) = Ahead-write_all (rs ++ end_rec ∷ []) w rest r fine all_fit in
    let behind : (add_rec_bytes (write_attributes w s false).0 recid d).0
        ≡ write_all w (rs ++ end_rec ∷ []) =
      ap (λ (x : Writer × Bool). (add_rec_bytes x.0 recid d).0) written
      ∙ write_all-append rs (end_rec ∷ []) w in
    let start =
      reader_at ((write_all w (rs ++ end_rec ∷ [])).payload ++ rest) (length w.payload) r in
    let (ok, st) = advance rs recid d [] start q ahead in
    let (m, e, last) =
      read_attributes-AllTaken rs f (next_rec start).0 q no_attributes (stored_attributes s false)
        recid d [] (attribute_recs-AllTaken s false h named) other
        (omega (arith, length-attribute_recs s false)) st in
    (
      ap (λ (x : Writer × Bool). x.1) written,
      rw behind (
        m,
        stored_attributes s false,
        e,
        last.0.same_id,
        last.0.same_bytes,
        apply_attributes-stored_attributes s fresh no_func fresh_func fresh_storage object,
      ),
    )
