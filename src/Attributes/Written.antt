-- ===== src/Attributes/Written.antt =====
-- The records that WriteDqmIfAttributes writes.
use dq_lang.Attributes.Bits.{word, word-lt}
use dq_lang.Attributes.State.{
  Symbol, dqmif_attr_flags, dqmif_attr_align_value, dqmif_attr_ext_link_name,
  dqmif_attr_section_name, dqmif_attr_link_name,
}
use dq_lang.Attributes.Write.{flag_bits, write_if, write_attributes}
use dq_lang.DqmIf.Bytes.{le32, le64, add_u32, add_u64, add_u32-append, add_u64-append}
use dq_lang.DqmIf.Stream.{Rec, Fits, write_all}
use dq_lang.DqmIf.Writer.{Writer, add_rec_bytes, add_rec_str, add_rec_i32, add_rec_u32, add_rec_u64}
use dq_lang.Prelude.{
  ℕ, ◌^◌, ◌<◌, ◌≡◌, refl, Bool, true, false, not, none, List, [], ◌∷◌, ◌++◌, arith, Bytes, length,
  All, All-append, append-nil, ◌==◌,
}
use dq_lang.Scopes.LookupLaws.{some_injective}
use dq_lang.TypeSpec.Storable.{write_all-append, write_all-fine, one_rec}

-- A record that is written under a condition.
abbrev pub opt : Bool → Rec → List Rec
opt true r = r ∷ []
opt false r = []

-- The records of the attributes, in their order.
abbrev pub attribute_recs : Symbol → Bool → List Rec
attribute_recs s extra_external =
    let flags = word (flag_bits s extra_external) in
    (((opt (not (flags == 0)) (dqmif_attr_flags, le64 flags)
          ++ opt (not (s.attr_align == 0)) (dqmif_attr_align_value, le32 s.attr_align))
        ++ opt (not (length s.attr_external_linkage_name == 0))
            (dqmif_attr_ext_link_name, s.attr_external_linkage_name))
      ++ opt (not (length s.attr_section_name == 0)) (dqmif_attr_section_name, s.attr_section_name))
    ++ opt s.attr_has_linkage_name (dqmif_attr_link_name, s.attr_linkage_name)

-- A call that wrote these records and returned true.
abbrev pub Wrote : Writer × Bool → Writer → List Rec → Type 0
Wrote call w rs = (call ≡ (write_all w rs, true)) × All Fits rs × (w.error ≡ none)

write_if-Wrote :
    (b : Bool) (add : Writer → Writer × Bool) (call : Writer × Bool) (w : Writer) (rs : List Rec)
    (r : Rec)
    → Wrote call w rs
    → ((v : Writer) → v.error ≡ none → Wrote (add v) v (r ∷ []))
    → Wrote (write_if b add call) w (rs ++ opt b r)
write_if-Wrote true add call w rs r (e, h, fine) next =
    let (e', h', _) = next (write_all w rs) (write_all-fine rs w fine h) in
    (rw (e, e', write_all-append rs (r ∷ []) w), All-append Fits rs (r ∷ []) h h', fine)
write_if-Wrote false add call w rs r (e, h, fine) next =
    (rw (e, append-nil rs), rw (append-nil rs) h, fine)

rec-Wrote :
    (w : Writer) (recid : ℕ) (d : Bytes)
    → w.error ≡ none
    → recid < 2 ^ 16
    → length d < 2 ^ 16
    → Wrote (add_rec_bytes w recid d) w ((recid, d) ∷ [])
rec-Wrote w recid d fine id_fits small =
    let (e, h, _) = one_rec w recid d fine id_fits small in (some_injective e, h, fine)

-- Sizes that a record can hold.
abbrev pub Holdable : Symbol → Type 0
Holdable s =
    (s.attr_align < 2 ^ 31)
    × (length s.attr_external_linkage_name < 2 ^ 16)
    × (length s.attr_section_name < 2 ^ 16)
    × (length s.attr_linkage_name < 2 ^ 16)

pub flags-lt : (s : Symbol) (extra_external : Bool) → word (flag_bits s extra_external) < 2 ^ 20
flags-lt s extra_external = word-lt (flag_bits s extra_external)

pub write_attributes-Wrote :
    (s : Symbol) (extra_external : Bool) (w : Writer)
    → Holdable s
    → w.error ≡ none
    → Wrote (write_attributes w s extra_external) w (attribute_recs s extra_external)
unfolding write_attributes add_rec_u64 add_rec_i32 add_rec_u32 add_rec_str add_rec_bytes write_all
write_attributes-Wrote s extra_external w (align, ext, section, link) fine =
    let flags = word (flag_bits s extra_external) in
    let small = flags-lt s extra_external in
    let eight : add_u64 [] flags ≡ le64 flags = add_u64-append [] flags in
    let four : add_u32 [] s.attr_align ≡ le32 s.attr_align = add_u32-append [] s.attr_align in
    write_if-Wrote _ _ _ w _ (dqmif_attr_link_name, s.attr_linkage_name)
      (write_if-Wrote _ _ _ w _ (dqmif_attr_section_name, s.attr_section_name)
        (write_if-Wrote _ _ _ w _ (dqmif_attr_ext_link_name, s.attr_external_linkage_name)
          (write_if-Wrote _ _ _ w _ (dqmif_attr_align_value, le32 s.attr_align)
            (write_if-Wrote _ _ (w, true) w [] (dqmif_attr_flags, le64 flags) (refl, tt, fine)
              (λ v f.
                rw eight (rec-Wrote v dqmif_attr_flags (le64 flags) f (omega arith) (omega arith))))
            (λ v f. rw four (
              rec-Wrote v dqmif_attr_align_value (le32 s.attr_align) f (omega arith)
                (omega arith))))
          (λ v f.
            rec-Wrote v dqmif_attr_ext_link_name s.attr_external_linkage_name f (omega arith) ext))
        (λ v f. rec-Wrote v dqmif_attr_section_name s.attr_section_name f (omega arith) section))
      (λ v f. rec-Wrote v dqmif_attr_link_name s.attr_linkage_name f (omega arith) link)
