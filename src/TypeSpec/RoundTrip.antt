-- ===== src/TypeSpec/RoundTrip.antt =====
-- ReadTypeSpec behind WriteDqmIfTypeSpec.
use dq_lang.DqmIf.Reader.{Reader, next_rec}
use dq_lang.DqmIf.Records.{reader_at}
use dq_lang.DqmIf.Stream.{Rec, write_all}
use dq_lang.DqmIf.Writer.{Writer}
use dq_lang.Prelude.{
  ℕ, zero, suc, ◌≤◌, ◌≡◌, refl, sym, ◌∙◌, true, none, some, List, [], ◌∷◌, inl, inr, arith, ◌++◌,
  append_assoc, Bool-cases, length, Bytes,
}
use dq_lang.TypeSpec.Types.{
  Ty, kind, dqmif_type_spec_end, dqmif_type_spec_array_end, dqmif_type_spec_slice_end,
  dqmif_type_spec_dyn_array_end, dqmif_type_spec_autofree_end, pointer, array, slice, dyn_array,
  autofree, dqmif_type_spec_name, object, simple, alias, nil_pointer, untyped_pointer, object_type,
  is_complex, dqmif_type_spec_simple,
}
use dq_lang.TypeSpec.Read.{Names, after_next, read_type_spec}
use dq_lang.TypeSpec.Records.{Ahead, inner_recs, depth, complex_recs, spec_recs, Ahead-write_all}
use dq_lang.TypeSpec.Storable.{Storable, write_all-fine}
use dq_lang.TypeSpec.Dispatch.{slice_record, dyn_array_record}
use dq_lang.TypeSpec.Named.{Reads, Takes→Reads, named-Reads, object_type-Reads}
use dq_lang.TypeSpec.Write.{write_type_spec}
use dq_lang.TypeSpec.Written.{write_type_spec-Writes, depth-pos}
use dq_lang.TypeSpec.Taken.{
  between-Reads, pointer-Takes, array-Takes, autofree-Takes, complex-Takes,
}

module _ (names : Names) where
  regrouped :
      (rs : List Rec) (end_id : ℕ) (tail : List Rec) (r q : Reader)
      → Ahead ((rs ++ (end_id, []) ∷ []) ++ tail) r q
      → Ahead (rs ++ (end_id, []) ∷ tail) r q
  regrouped rs end_id tail r q a = rw (sym (append_assoc rs ((end_id, []) ∷ []) tail)) a

  -- Behind the record in front of it, the type that inner_recs stands for is read.
  inner-Reads :
      (t : Ty) (f : ℕ) (tail : List Rec) (r q : Reader)
      → depth t ≤ f
      → Storable names t
      → Ahead (inner_recs t ++ tail) r q
      → Reads names f r t tail q
  inner-Reads t zero tail r q d s a = absurd (omega (arith, depth-pos t))
  inner-Reads nil_pointer (suc f) tail r q d s a = absurd (omega arith)
  inner-Reads (untyped_pointer m n) (suc f) tail r q d (g, k) a =
      named-Reads names f dqmif_type_spec_name _ m n tail r q (inl refl) g k a
  inner-Reads (object m n) (suc f) tail r q d (g, k) a =
      named-Reads names f dqmif_type_spec_name _ m n tail r q (inl refl) g k a
  inner-Reads (simple m n) (suc f) tail r q d (g, k) a =
      named-Reads names f dqmif_type_spec_name _ m n tail r q (inl refl) g k a
  inner-Reads (alias m n t) (suc f) tail r q d (g, k, _) a =
      named-Reads names f dqmif_type_spec_name _ m n tail r q (inl refl) g k a
  inner-Reads (object_type m n) (suc f) tail r q d (g, (t, k, is_object)) a =
      object_type-Reads names f m n t tail r q g k is_object a
  inner-Reads (pointer t) (suc f) tail r q d s (ok, h, a) =
      let c = (next_rec r).0 in
      let (m, e, later) = inner-Reads t f tail c q (omega arith) s a in
      Takes→Reads names (suc f) r (pointer t) tail q ok
        (pointer-Takes names f c m t tail q h e later)
  inner-Reads (array t len) (suc f) tail r q d (small, s) (ok, h, a) =
      let c = (next_rec r).0 in
      let (m, e, later) =
        inner-Reads t f ((dqmif_type_spec_array_end, []) ∷ tail) c q (omega arith) s
          (regrouped (inner_recs t) dqmif_type_spec_array_end tail c q a) in
      Takes→Reads names (suc f) r (array t len) tail q ok
        (array-Takes names f len c m t tail q small h e later)
  inner-Reads (slice t) (suc f) tail r q d s (ok, h, a) =
      let c = (next_rec r).0 in
      let (m, e, later) =
        inner-Reads t f ((dqmif_type_spec_slice_end, []) ∷ tail) c q (omega arith) s
          (regrouped (inner_recs t) dqmif_type_spec_slice_end tail c q a) in
      let (whole, behind) =
        between-Reads (read_type_spec names f) c m t slice _ _ tail q h e later in
      Takes→Reads names (suc f) r (slice t) tail q ok
        ((next_rec m).0, slice_record names f c h.same_id ∙ whole, behind)
  inner-Reads (dyn_array t) (suc f) tail r q d s (ok, h, a) =
      let c = (next_rec r).0 in
      let (m, e, later) =
        inner-Reads t f ((dqmif_type_spec_dyn_array_end, []) ∷ tail) c q (omega arith) s
          (regrouped (inner_recs t) dqmif_type_spec_dyn_array_end tail c q a) in
      let (whole, behind) =
        between-Reads (read_type_spec names f) c m t dyn_array _ _ tail q h e later in
      Takes→Reads names (suc f) r (dyn_array t) tail q ok
        ((next_rec m).0, dyn_array_record names f c h.same_id ∙ whole, behind)
  inner-Reads (autofree t) (suc f) tail r q d (owned, s) (ok, h, a) =
      let c = (next_rec r).0 in
      let (m, e, later) =
        inner-Reads t f ((dqmif_type_spec_autofree_end, []) ∷ tail) c q (omega arith) s
          (regrouped (inner_recs t) dqmif_type_spec_autofree_end tail c q a) in
      Takes→Reads names (suc f) r (autofree t) tail q ok
        (autofree-Takes names f c m t tail q owned h e later)

  complex-Reads :
      (t : Ty) (f : ℕ) (r q : Reader)
      → depth t ≤ f
      → Storable names t
      → Ahead (complex_recs t) r q
      → Reads names (suc f) r t [] q
  complex-Reads t f r q d s (ok, h, a) =
      let c = (next_rec r).0 in
      let (m, e, later) = inner-Reads t f ((dqmif_type_spec_end, []) ∷ []) c q d s a in
      Takes→Reads names (suc f) r t [] q ok (complex-Takes names f c m t [] q h e later)

  -- A whole specification.
  spec-Reads :
      (t : Ty) (f : ℕ) (r q : Reader)
      → depth t ≤ f
      → Storable names t
      → Ahead (spec_recs t) r q
      → Reads names (suc f) r t [] q
  spec-Reads nil_pointer f r q d s a = absurd (omega arith)
  spec-Reads (untyped_pointer m n) f r q d (g, k) a =
      named-Reads names f dqmif_type_spec_simple _ m n [] r q (inr refl) g k a
  spec-Reads (object m n) f r q d (g, k) a =
      named-Reads names f dqmif_type_spec_simple _ m n [] r q (inr refl) g k a
  spec-Reads (simple m n) f r q d (g, k) a =
      named-Reads names f dqmif_type_spec_simple _ m n [] r q (inr refl) g k a
  spec-Reads (alias m n t) f r q d (g, k, plain) a = elim (Bool-cases (is_complex (kind t))) [
    | inl e ↦ complex-Reads (alias m n t) f r q d (g, k, plain) (rw e at a)
    | inr e ↦ named-Reads names f dqmif_type_spec_simple _ m n [] r q (inr refl) g k (rw e at a)
  ]
  spec-Reads (object_type m n) f r q d (g, (t, k, is_object)) a =
      object_type-Reads names f m n t [] r q g k is_object a
  spec-Reads (pointer t) f r q d s a = complex-Reads (pointer t) f r q d s a
  spec-Reads (array t len) f r q d s a = complex-Reads (array t len) f r q d s a
  spec-Reads (slice t) f r q d s a = complex-Reads (slice t) f r q d s a
  spec-Reads (dyn_array t) f r q d s a = complex-Reads (dyn_array t) f r q d s a
  spec-Reads (autofree t) f r q d s a = complex-Reads (autofree t) f r q d s a

  -- WriteDqmIfTypeSpec writes a type that can be stored, and NextRec and ReadTypeSpec behind it read
  -- the type back, whatever follows, and stop where it ends; fuel above the type's depth is enough for
  -- both.
  pub read_type_spec-write_type_spec :
      (t : Ty) (f : ℕ) (w : Writer) (rest : Bytes) (r : Reader)
      → depth t ≤ f
      → Storable names t
      → w.error ≡ none
      → (w' : Writer) × (write_type_spec f w t ≡ some (w', true))
        × (w'.error ≡ none)
        × let p = w'.payload ++ rest in
          (m : Reader) × (after_next
              (read_type_spec names (suc f))
              (reader_at p (length w.payload) r)
            ≡ some (m, some t))
          × (reader_at p (length w'.payload) m ≡ m)
  read_type_spec-write_type_spec t f w rest r d s fine =
      let (written, fits, _) = write_type_spec-Writes names t f w d s fine in
      let w' = write_all w (spec_recs t) in
      let (q, ahead, stop) = Ahead-write_all (spec_recs t) w rest r fine fits in
      let (m, e, here) =
        spec-Reads t f (reader_at (w'.payload ++ rest) (length w.payload) r) q d s ahead in
      (w', written, write_all-fine (spec_recs t) w fine fits, (m, e, rw here stop))
