-- ===== src/TypeSpec/Named.antt =====
-- ReadTypeSpec at the types that are one record: names, and references to object types.
use dq_lang.DqmIf.Reader.{Reader, next_rec, read_string, read_string_pair, Read}
use dq_lang.DqmIf.Scalars.{split_zero-append}
use dq_lang.DqmIf.Stream.{Rec}
use dq_lang.Prelude.{
  ℕ, suc, ◌≡◌, ◌≢◌, ◌∙◌, ap, true, false, some, List, [], ◌∷◌, ◌⊎◌, Option, ◌++◌, arith, ◌==◌,
  length, Bytes, inl, inr, Bool-cases,
}
use dq_lang.TypeSpec.Dispatch.{name_record, qualified_record, object_record, object_qual_record}
use dq_lang.TypeSpec.Types.{
  Ty, resolve_alias, dqmif_type_spec_simple, dqmif_type_spec_name, dqmif_type_spec_qualified,
  object, object_type,
}
use dq_lang.TypeSpec.Read.{
  Names, after_next, closed, resolved, resolved_object, read_name, read_qualified, read_type_spec,
}
use dq_lang.TypeSpec.Records.{name_rec, inner_recs, IsRec, Ahead, expect_empty-IsRec}
use dq_lang.TypeSpec.Storable.{look_up, GoodName}

read_string_pair-IsRec :
    (r : Reader) (recid : ℕ) (m n : Bytes)
    → GoodName m n
    → length m ≢ 0
    → IsRec r recid ((m ++ 0 ∷ []) ++ n)
    → read_string_pair r ≡ (r, some (m, n))
unfolding read_string_pair
read_string_pair-IsRec r recid m n (some_name, small, zero_free) some_module h =
    rw (h.same_bytes, split_zero-append m n zero_free) (ground arith)

pub closed-Ahead :
    (end_id : ℕ) (t : Ty) (tail : List Rec) (r q : Reader)
    → Ahead ((end_id, []) ∷ tail) r q
    → (closed end_id t r ≡ some ((next_rec r).0, some t)) × Ahead tail (next_rec r).0 q
unfolding closed
closed-Ahead end_id t tail r q (ok, h, later) =
    let met = expect_empty-IsRec (next_rec r).0 end_id h in (rw (closed, ok, met, met), later)

module _ (names : Names) where
  -- The answer for a name that was read alone or with its module's name.
  read_name-IsRec :
      (answer : Reader → Bytes → Option Ty → Read Ty) (r : Reader) (recid : ℕ) (m n : Bytes)
      → (length m == 0) ≡ true
      → IsRec r recid n
      → read_name names answer r ≡ answer r n (look_up names m n)
  unfolding read_name read_string
  read_name-IsRec answer r recid m n e h = rw (h.same_bytes, e)

  read_qualified-IsRec :
      (answer : Reader → Bytes → Option Ty → Read Ty) (r : Reader) (recid : ℕ) (m n : Bytes)
      → GoodName m n
      → (length m == 0) ≡ false
      → IsRec r recid ((m ++ 0 ∷ []) ++ n)
      → read_qualified names answer r ≡ answer r n (look_up names m n)
  unfolding read_qualified
  read_qualified-IsRec answer r recid m n g e h =
      let both = read_string_pair-IsRec r recid m n g (ground arith) h in
      rw (read_qualified, both, both, e)

  -- Where the current record starts a type, ReadTypeSpec returns it and stops at its last record.
  abbrev pub Takes : ℕ → Reader → Ty → List Rec → Reader → Type 0
  Takes f n t tail q = (m : Reader) × (read_type_spec names f n ≡ some (m, some t)) × Ahead tail m q

  -- The same from the record before.
  abbrev pub Reads : ℕ → Reader → Ty → List Rec → Reader → Type 0
  Reads f r t tail q =
      (m : Reader) × (after_next (read_type_spec names f) r ≡ some (m, some t)) × Ahead tail m q

  pub Takes→Reads :
      (f : ℕ) (r : Reader) (t : Ty) (tail : List Rec) (q : Reader)
      → (next_rec r).1 ≡ true
      → Takes f (next_rec r).0 t tail q
      → Reads f r t tail q
  unfolding after_next
  Takes→Reads f r t tail q ok (m, e, later) = (m, rw (after_next, ok) e, later)

  -- A type that is written by its name alone, under one of the ids for names.
  pub named-Reads :
      (f plain : ℕ) (t : Ty) (m n : Bytes) (tail : List Rec) (r q : Reader)
      → (plain ≡ dqmif_type_spec_name) ⊎ (plain ≡ dqmif_type_spec_simple)
      → GoodName m n
      → look_up names m n ≡ some t
      → Ahead (name_rec plain dqmif_type_spec_qualified m n ∷ tail) r q
      → Reads (suc f) r t tail q
  unfolding resolved
  named-Reads f plain t m n tail r q which g known a =
      let c = (next_rec r).0 in
      elim (Bool-cases (length m == 0)) [
        | inl e ↦
            let (ok, h, later) = rw e at a in
            Takes→Reads (suc f) r t tail q ok (
              c,
              name_record names f plain c which h.same_id
                  ∙ ap some (read_name-IsRec resolved c plain m n e h ∙ ap (resolved c n) known),
              later,
            )
        | inr e ↦
            let (ok, h, later) = rw e at a in
            Takes→Reads (suc f) r t tail q ok (
              c,
              qualified_record names f c h.same_id
                  ∙ ap some (read_qualified-IsRec resolved c _ m n g e h ∙ ap (resolved c n) known),
              later,
            )
      ]

  pub object_type-Reads :
      (f : ℕ) (m n : Bytes) (t : Ty) (tail : List Rec) (r q : Reader)
      → GoodName m n
      → look_up names m n ≡ some t
      → resolve_alias t ≡ object m n
      → Ahead (inner_recs (object_type m n) ++ tail) r q
      → Reads (suc f) r (object_type m n) tail q
  unfolding resolved_object
  object_type-Reads f m n t tail r q g known is_object a =
      let c = (next_rec r).0 in
      let found : resolved_object c n (look_up names m n) ≡ (c, some (object_type m n)) =
        ap (resolved_object c n) known ∙ rw (resolved_object, is_object) in
      elim (Bool-cases (length m == 0)) [
        | inl e ↦
            let (ok, h, later) = rw e at a in
            Takes→Reads (suc f) r (object_type m n) tail q ok (
              c,
              object_record names f c h.same_id
                  ∙ ap some (read_name-IsRec resolved_object c _ m n e h ∙ found),
              later,
            )
        | inr e ↦
            let (ok, h, later) = rw e at a in
            Takes→Reads (suc f) r (object_type m n) tail q ok (
              c,
              object_qual_record names f c h.same_id
                  ∙ ap some (read_qualified-IsRec resolved_object c _ m n g e h ∙ found),
              later,
            )
      ]
