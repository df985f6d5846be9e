-- ===== src/TypeSpec/Taken.antt =====
-- ReadTypeSpec at the types that enclose another one, whose reading is known.
use dq_lang.DqmIf.Bytes.{le32}
use dq_lang.DqmIf.Reader.{Reader, next_rec, read_i32}
use dq_lang.DqmIf.Scalars.{read_u32-bytes}
use dq_lang.DqmIf.Stream.{Rec}
use dq_lang.Prelude.{ℕ, suc, ◌<◌, ◌^◌, ◌≡◌, ◌∙◌, ap, true, some, List, [], ◌∷◌, ◌-◌, arith, le→ltb}
use dq_lang.TypeSpec.Types.{
  Ty, kind, resolve_alias, is_ownable, dqmif_type_spec_begin, dqmif_type_spec_ptr,
  dqmif_type_spec_end, dqmif_type_spec_array_begin, dqmif_type_spec_array_end,
  dqmif_type_spec_autofree_begin, dqmif_type_spec_autofree_end, pointer, array, autofree,
}
use dq_lang.TypeSpec.Read.{
  Names, ReadAll, after_next, between, read_pointer, read_array, read_autofree, read_type_spec,
}
use dq_lang.TypeSpec.Records.{IsRec, Ahead, expect_empty-IsRec}
use dq_lang.TypeSpec.Dispatch.{pointer_record, array_record, autofree_record, begin_record}
use dq_lang.TypeSpec.Named.{Takes, closed-Ahead}

-- A type inside, whose reading is known, between a record without data and one that closes it.
pub between-Reads :
    (sub : Reader → ReadAll) (n m : Reader) (t : Ty) (wrap : Ty → Ty) (begin_id end_id : ℕ)
    (tail : List Rec) (q : Reader)
    → IsRec n begin_id []
    → after_next sub n ≡ some (m, some t)
    → Ahead ((end_id, []) ∷ tail) m q
    → (between sub begin_id wrap end_id n ≡ some ((next_rec m).0, some (wrap t)))
      × Ahead tail (next_rec m).0 q
unfolding between
between-Reads sub n m t wrap begin_id end_id tail q h e a =
    let here = expect_empty-IsRec n begin_id h in
    let (shut, later) = closed-Ahead end_id (wrap t) tail m q a in
    (rw (between, here, e, shut), later)

module _ (names : Names) where
  pub pointer-Takes :
      (f : ℕ) (n m : Reader) (t : Ty) (tail : List Rec) (q : Reader)
      → IsRec n dqmif_type_spec_ptr []
      → after_next (read_type_spec names f) n ≡ some (m, some t)
      → Ahead tail m q
      → Takes names (suc f) n (pointer t) tail q
  unfolding read_pointer
  pointer-Takes f n m t tail q h e a =
      let here = expect_empty-IsRec n dqmif_type_spec_ptr h in
      (m, pointer_record names f n h.same_id ∙ rw (read_pointer, here, e), a)

  pub array-Takes :
      (f len : ℕ) (n m : Reader) (t : Ty) (tail : List Rec) (q : Reader)
      → len < 2 ^ 31
      → IsRec n dqmif_type_spec_array_begin (le32 len)
      → after_next (read_type_spec names f) n ≡ some (m, some t)
      → Ahead ((dqmif_type_spec_array_end, []) ∷ tail) m q
      → Takes names (suc f) n (array t len) tail q
  unfolding read_array read_i32
  array-Takes f len n m t tail q small h e a =
      let value : read_i32 n ≡ (n, some len) =
        read_u32-bytes n len (omega arith) h.same_length h.same_bytes in
      let (shut, later) = closed-Ahead dqmif_type_spec_array_end (array t len) tail m q a in
      let whole : read_array (read_type_spec names f) n (n, some len)
          ≡ some ((next_rec m).0, some (array t len)) =
        rw (read_array, le→ltb (2 ^ 31 - 1) len (omega arith), e, shut) in
      (
        (next_rec m).0,
        array_record names f n h.same_id ∙ ap (read_array (read_type_spec names f) n) value ∙ whole,
        later,
      )

  pub autofree-Takes :
      (f : ℕ) (n m : Reader) (t : Ty) (tail : List Rec) (q : Reader)
      → is_ownable (kind (resolve_alias t)) ≡ true
      → IsRec n dqmif_type_spec_autofree_begin []
      → after_next (read_type_spec names f) n ≡ some (m, some t)
      → Ahead ((dqmif_type_spec_autofree_end, []) ∷ tail) m q
      → Takes names (suc f) n (autofree t) tail q
  unfolding read_autofree
  autofree-Takes f n m t tail q owned h e a =
      let here = expect_empty-IsRec n dqmif_type_spec_autofree_begin h in
      let (shut, later) = closed-Ahead dqmif_type_spec_autofree_end (autofree t) tail m q a in
      (
        (next_rec m).0,
        autofree_record names f n h.same_id ∙ rw (read_autofree, here, e, owned, shut),
        later,
      )

  pub complex-Takes :
      (f : ℕ) (n m : Reader) (t : Ty) (tail : List Rec) (q : Reader)
      → IsRec n dqmif_type_spec_begin []
      → after_next (read_type_spec names f) n ≡ some (m, some t)
      → Ahead ((dqmif_type_spec_end, []) ∷ tail) m q
      → Takes names (suc f) n t tail q
  complex-Takes f n m t tail q h e a =
      let (shut, later) = closed-Ahead dqmif_type_spec_end t tail m q a in
      ((next_rec m).0, begin_record names f n h.same_id ∙ rw (e, shut), later)
