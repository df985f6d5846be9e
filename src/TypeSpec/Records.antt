-- ===== src/TypeSpec/Records.antt =====
-- The records of a type, described without the writer, and a reader that has given records ahead.
use dq_lang.DqmIf.Bytes.{le32}
use dq_lang.DqmIf.Reader.{Reader, next_rec, record_bytes, expect_empty}
use dq_lang.DqmIf.Records.{reader_at}
use dq_lang.DqmIf.Stream.{
  Rec, Fits, write_all, write_all_prefix, next_rec-add_rec_bytes, add_rec_bytes-fine,
}
use dq_lang.DqmIf.Writer.{Writer, add_rec_bytes}
use dq_lang.Prelude.{
  ℕ, suc, ◌≡◌, refl, ◌∙◌, ap, true, none, List, [], ◌∷◌, ◌++◌, append_assoc, arith, Bytes, length,
  All, ◌==◌, if◌then◌else◌,
}
use dq_lang.TypeSpec.Types.{
  Ty, kind, is_complex, dqmif_type_spec_simple, dqmif_type_spec_begin, dqmif_type_spec_name,
  dqmif_type_spec_ptr, dqmif_type_spec_qualified, dqmif_type_spec_end, dqmif_type_spec_array_begin,
  dqmif_type_spec_array_end, dqmif_type_spec_slice_begin, dqmif_type_spec_slice_end,
  dqmif_type_spec_dyn_array_begin, dqmif_type_spec_dyn_array_end, dqmif_type_spec_autofree_begin,
  dqmif_type_spec_autofree_end, dqmif_type_spec_object_type, dqmif_type_spec_object_type_qual,
  object, simple, alias, nil_pointer, untyped_pointer, pointer, array, slice, dyn_array, autofree,
  object_type,
}

-- The record that names a type, with its module if it has one.
abbrev pub name_rec : ℕ → ℕ → Bytes → Bytes → Rec
name_rec plain qualified m n = if length m == 0 then (plain, n) else (qualified, (m ++ 0 ∷ []) ++ n)

abbrev pub enclosed_recs : ℕ → List Rec → ℕ → List Rec
enclosed_recs begin_id rs end_id = (begin_id, []) ∷ (rs ++ (end_id, []) ∷ [])

-- The records inside a complex specification.
abbrev pub inner_recs : Ty → List Rec
inner_recs (autofree t) =
    enclosed_recs dqmif_type_spec_autofree_begin (inner_recs t) dqmif_type_spec_autofree_end
inner_recs nil_pointer = []
inner_recs (untyped_pointer m n) = name_rec dqmif_type_spec_name dqmif_type_spec_qualified m n ∷ []
inner_recs (pointer t) = (dqmif_type_spec_ptr, []) ∷ inner_recs t
inner_recs (array t len) =
    (dqmif_type_spec_array_begin, le32 len) ∷ (inner_recs t ++ (dqmif_type_spec_array_end, []) ∷ [])
inner_recs (slice t) =
    enclosed_recs dqmif_type_spec_slice_begin (inner_recs t) dqmif_type_spec_slice_end
inner_recs (dyn_array t) =
    enclosed_recs dqmif_type_spec_dyn_array_begin (inner_recs t) dqmif_type_spec_dyn_array_end
inner_recs (object_type m n) =
    name_rec dqmif_type_spec_object_type dqmif_type_spec_object_type_qual m n ∷ []
inner_recs (object m n) = name_rec dqmif_type_spec_name dqmif_type_spec_qualified m n ∷ []
inner_recs (simple m n) = name_rec dqmif_type_spec_name dqmif_type_spec_qualified m n ∷ []
inner_recs (alias m n t) = name_rec dqmif_type_spec_name dqmif_type_spec_qualified m n ∷ []

abbrev pub complex_recs : Ty → List Rec
complex_recs t = enclosed_recs dqmif_type_spec_begin (inner_recs t) dqmif_type_spec_end

abbrev pub simple_recs : Bytes → Bytes → List Rec
simple_recs m n = name_rec dqmif_type_spec_simple dqmif_type_spec_qualified m n ∷ []

abbrev pub spec_recs : Ty → List Rec
spec_recs nil_pointer = []
spec_recs (untyped_pointer m n) = simple_recs m n
spec_recs (object_type m n) = inner_recs (object_type m n)
spec_recs (object m n) = simple_recs m n
spec_recs (simple m n) = simple_recs m n
spec_recs (alias m n t) =
    if is_complex (kind t) then complex_recs (alias m n t) else simple_recs m n
spec_recs t = complex_recs t

-- How deep the recursion goes.
abbrev pub depth : Ty → ℕ
depth (autofree t) = suc (depth t)
depth (pointer t) = suc (depth t)
depth (array t len) = suc (depth t)
depth (slice t) = suc (depth t)
depth (dyn_array t) = suc (depth t)
depth _ = 1

-- The current record of a reader.
pub record IsRec (n : Reader) (recid : ℕ) (d : Bytes) : Type 0 where
  pub same_id : n.recid ≡ recid
  pub same_length : n.reclen ≡ length d
  pub same_bytes : record_bytes n ≡ d

-- NextRec finds the records one after the other and ends at the reader q.
abbrev pub Ahead : List Rec → Reader → Reader → Type 0
Ahead [] r q = r ≡ q
Ahead ((recid, d) ∷ rs) r q =
    ((next_rec r).1 ≡ true) × IsRec (next_rec r).0 recid d × Ahead rs (next_rec r).0 q

-- Records that are written are ahead of a reader at their start, whatever follows.
pub Ahead-write_all :
    (rs : List Rec) (w : Writer) (rest : Bytes) (r : Reader)
    → w.error ≡ none
    → All Fits rs
    → let p = (write_all w rs).payload ++ rest in
      (q : Reader) × Ahead rs (reader_at p (length w.payload) r) q
      × (reader_at p (length (write_all w rs).payload) q ≡ q)
unfolding write_all
Ahead-write_all [] w rest r fine h = (_, refl, refl)
Ahead-write_all ((recid, d) ∷ rs) w rest r fine ((id_fits, small), h) =
    let w' = (add_rec_bytes w recid d).0 in
    let fine' : w'.error ≡ none = add_rec_bytes-fine w recid d fine small in
    let (more, p) = write_all_prefix w' rs fine' h in
    let split : (write_all w' rs).payload ++ rest ≡ w'.payload ++ (more ++ rest) =
      ap (λ b. b ++ rest) p ∙ append_assoc w'.payload more rest in
    let start = reader_at (w'.payload ++ (more ++ rest)) (length w.payload) r in
    let (ok, id_back, len_back, d_back, pos_back) =
      next_rec-add_rec_bytes w recid d (more ++ rest) r fine id_fits small in
    let (q, later, at) = Ahead-write_all rs w' rest (next_rec start).0 fine' h in
    let here : reader_at ((write_all w' rs).payload ++ rest) (length w'.payload) (next_rec start).0
        ≡ (next_rec start).0 =
      ap (λ b. reader_at b (length w'.payload) (next_rec start).0) split ∙ pos_back in
    (
      q,
      rw split (
        ok,
        record { same_id = id_back; same_length = len_back; same_bytes = d_back },
        rw here at later,
      ),
      at,
    )

-- ExpectEmpty at a record without data that has the id.
pub expect_empty-IsRec :
    (n : Reader) (recid : ℕ) → IsRec n recid [] → expect_empty n recid ≡ (n, true)
unfolding expect_empty
expect_empty-IsRec n recid h =
    let id_back = h.same_id in let len_back = h.same_length in ground arith
