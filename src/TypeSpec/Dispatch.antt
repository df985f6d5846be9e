-- ===== src/TypeSpec/Dispatch.antt =====
-- The function of ReadTypeSpec that the id of a record leads to.
use dq_lang.DqmIf.Reader.{Reader, read_i32}
use dq_lang.Prelude.{ℕ, suc, ◌≡◌, ◌⊎◌, inl, inr, some}
use dq_lang.TypeSpec.Types.{
  dqmif_type_spec_simple, dqmif_type_spec_begin, dqmif_type_spec_name, dqmif_type_spec_ptr,
  dqmif_type_spec_qualified, dqmif_type_spec_end, dqmif_type_spec_array_begin,
  dqmif_type_spec_slice_begin, dqmif_type_spec_slice_end, dqmif_type_spec_dyn_array_begin,
  dqmif_type_spec_dyn_array_end, dqmif_type_spec_autofree_begin, dqmif_type_spec_object_type,
  dqmif_type_spec_object_type_qual, slice, dyn_array,
}
use dq_lang.TypeSpec.Read.{
  Names, after_next, and_then, closed, between, read_pointer, read_array, read_autofree,
  read_type_spec_inner, resolved, resolved_object, read_name, read_qualified, read_type_spec_by,
  read_type_spec,
}

module _ (names : Names) where
  pub name_record :
      (f plain : ℕ) (n : Reader)
      → (plain ≡ dqmif_type_spec_name) ⊎ (plain ≡ dqmif_type_spec_simple)
      → n.recid ≡ plain
      → read_type_spec names (suc f) n ≡ some (read_name names resolved n)
  unfolding read_type_spec read_type_spec_by
  name_record f plain n (inl p) h = rw (h, p)
  name_record f plain n (inr p) h = rw (h, p)

  pub qualified_record :
      (f : ℕ) (n : Reader)
      → n.recid ≡ dqmif_type_spec_qualified
      → read_type_spec names (suc f) n ≡ some (read_qualified names resolved n)
  unfolding read_type_spec read_type_spec_by
  qualified_record f n h = rw h

  pub object_record :
      (f : ℕ) (n : Reader)
      → n.recid ≡ dqmif_type_spec_object_type
      → read_type_spec names (suc f) n ≡ some (read_name names resolved_object n)
  unfolding read_type_spec read_type_spec_by
  object_record f n h = rw h

  pub object_qual_record :
      (f : ℕ) (n : Reader)
      → n.recid ≡ dqmif_type_spec_object_type_qual
      → read_type_spec names (suc f) n ≡ some (read_qualified names resolved_object n)
  unfolding read_type_spec read_type_spec_by
  object_qual_record f n h = rw h

  pub pointer_record :
      (f : ℕ) (n : Reader)
      → n.recid ≡ dqmif_type_spec_ptr
      → read_type_spec names (suc f) n ≡ read_pointer (read_type_spec names f) n
  unfolding read_type_spec read_type_spec_by read_type_spec_inner
  pointer_record f n h = rw h

  pub array_record :
      (f : ℕ) (n : Reader)
      → n.recid ≡ dqmif_type_spec_array_begin
      → read_type_spec names (suc f) n ≡ read_array (read_type_spec names f) n (read_i32 n)
  unfolding read_type_spec read_type_spec_by read_type_spec_inner
  array_record f n h = rw h

  pub slice_record :
      (f : ℕ) (n : Reader)
      → n.recid ≡ dqmif_type_spec_slice_begin
      → read_type_spec names (suc f) n
        ≡ between
            (read_type_spec names f)
            dqmif_type_spec_slice_begin
            slice
            dqmif_type_spec_slice_end
            n
  unfolding read_type_spec read_type_spec_by read_type_spec_inner
  slice_record f n h = rw h

  pub dyn_array_record :
      (f : ℕ) (n : Reader)
      → n.recid ≡ dqmif_type_spec_dyn_array_begin
      → read_type_spec names (suc f) n
        ≡ between
            (read_type_spec names f)
            dqmif_type_spec_dyn_array_begin
            dyn_array
            dqmif_type_spec_dyn_array_end
            n
  unfolding read_type_spec read_type_spec_by read_type_spec_inner
  dyn_array_record f n h = rw h

  pub autofree_record :
      (f : ℕ) (n : Reader)
      → n.recid ≡ dqmif_type_spec_autofree_begin
      → read_type_spec names (suc f) n ≡ read_autofree (read_type_spec names f) n
  unfolding read_type_spec read_type_spec_by read_type_spec_inner
  autofree_record f n h = rw h

  pub begin_record :
      (f : ℕ) (n : Reader)
      → n.recid ≡ dqmif_type_spec_begin
      → read_type_spec names (suc f) n
        ≡ and_then (after_next (read_type_spec names f) n) (λ q t. closed dqmif_type_spec_end t q)
  unfolding read_type_spec read_type_spec_by
  begin_record f n h = rw h
