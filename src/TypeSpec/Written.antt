-- ===== src/TypeSpec/Written.antt =====
-- What WriteDqmIfTypeSpec writes: the records of the type, and the types that it never ends on.
use dq_lang.DqmIf.Stream.{write_all}
use dq_lang.DqmIf.Writer.{Writer, add_rec_empty}
use dq_lang.Prelude.{
  ℕ, zero, suc, ◌≤◌, ◌≡◌, refl, none, some, [], ◌∷◌, arith, Bytes, Bool-cases, inl, inr,
}
use dq_lang.TypeSpec.Read.{Names}
use dq_lang.TypeSpec.Types.{
  Ty, kind, object, simple, alias, nil_pointer, untyped_pointer, pointer, array, slice, dyn_array,
  autofree, object_type, dqmif_type_spec_name, dqmif_type_spec_ptr, is_complex,
  dqmif_type_spec_simple, dqmif_type_spec_begin, dqmif_type_spec_end, tk_object_type,
}
use dq_lang.TypeSpec.Records.{inner_recs, depth, complex_recs, spec_recs}
use dq_lang.TypeSpec.Write.{enclosed, write_type_spec_inner, complex, write_type_spec}
use dq_lang.TypeSpec.Storable.{
  Writes, Storable, write_all-fine, Writes-and_then, empty_rec, enclosed-Writes,
  enclosed_array-Writes, write_type_ref-Writes, write_object_type_ref-Writes,
}

pub depth-pos : (t : Ty) → 1 ≤ depth t
depth-pos (autofree t) = omega arith
depth-pos (pointer t) = omega arith
depth-pos (array t len) = omega arith
depth-pos (slice t) = omega arith
depth-pos (dyn_array t) = omega arith
depth-pos _ = omega arith

module _ (names : Names) where
  pub inner-Writes :
      (t : Ty) (f : ℕ) (w : Writer)
      → depth t ≤ f
      → Storable names t
      → w.error ≡ none
      → Writes (write_type_spec_inner f w t) w (inner_recs t)
  unfolding write_type_spec_inner
  inner-Writes t zero w d s fine = absurd (omega (arith, depth-pos t))
  inner-Writes nil_pointer (suc f) w d s fine = absurd (omega arith)
  inner-Writes (untyped_pointer m n) (suc f) w d (g, _) fine =
      write_type_ref-Writes w dqmif_type_spec_name m n fine (omega arith) g
  inner-Writes (object m n) (suc f) w d (g, _) fine =
      write_type_ref-Writes w dqmif_type_spec_name m n fine (omega arith) g
  inner-Writes (simple m n) (suc f) w d (g, _) fine =
      write_type_ref-Writes w dqmif_type_spec_name m n fine (omega arith) g
  inner-Writes (alias m n t) (suc f) w d (g, _, plain) fine =
      rw (write_type_spec_inner, plain)
        (write_type_ref-Writes w dqmif_type_spec_name m n fine (omega arith) g)
  inner-Writes (object_type m n) (suc f) w d (g, _) fine = write_object_type_ref-Writes w m n fine g
  inner-Writes (pointer t) (suc f) w d s fine =
      Writes-and_then (some (add_rec_empty w dqmif_type_spec_ptr)) _ w
        ((dqmif_type_spec_ptr, []) ∷ []) (inner_recs t)
        (empty_rec w dqmif_type_spec_ptr fine (omega arith))
        λ v fine_v. inner-Writes t f v (omega arith) s fine_v
  inner-Writes (array t len) (suc f) w d (small, s) fine =
      enclosed_array-Writes w len _ (inner_recs t) fine small
        λ v fine_v. inner-Writes t f v (omega arith) s fine_v
  inner-Writes (slice t) (suc f) w d s fine =
      enclosed-Writes w _ _ _ (inner_recs t) fine (omega arith) (omega arith)
        λ v fine_v. inner-Writes t f v (omega arith) s fine_v
  inner-Writes (dyn_array t) (suc f) w d s fine =
      enclosed-Writes w _ _ _ (inner_recs t) fine (omega arith) (omega arith)
        λ v fine_v. inner-Writes t f v (omega arith) s fine_v
  inner-Writes (autofree t) (suc f) w d (_, s) fine =
      enclosed-Writes w _ _ _ (inner_recs t) fine (omega arith) (omega arith)
        λ v fine_v. inner-Writes t f v (omega arith) s fine_v

  complex-Writes :
      (t : Ty) (f : ℕ) (w : Writer)
      → depth t ≤ f
      → Storable names t
      → w.error ≡ none
      → Writes (complex f w t) w (complex_recs t)
  complex-Writes t f w d s fine =
      enclosed-Writes w dqmif_type_spec_begin dqmif_type_spec_end _ (inner_recs t) fine
        (omega arith) (omega arith) λ v fine_v. inner-Writes t f v d s fine_v

  -- The specification of a type that can be stored consists of the records of spec_recs.
  pub write_type_spec-Writes :
      (t : Ty) (f : ℕ) (w : Writer)
      → depth t ≤ f
      → Storable names t
      → w.error ≡ none
      → Writes (write_type_spec f w t) w (spec_recs t)
  unfolding write_type_spec
  write_type_spec-Writes nil_pointer f w d s fine = absurd (omega arith)
  write_type_spec-Writes (untyped_pointer m n) f w d (g, _) fine =
      write_type_ref-Writes w dqmif_type_spec_simple m n fine (omega arith) g
  write_type_spec-Writes (object m n) f w d (g, _) fine =
      write_type_ref-Writes w dqmif_type_spec_simple m n fine (omega arith) g
  write_type_spec-Writes (simple m n) f w d (g, _) fine =
      write_type_ref-Writes w dqmif_type_spec_simple m n fine (omega arith) g
  write_type_spec-Writes (object_type m n) f w d (g, _) fine =
      write_object_type_ref-Writes w m n fine g
  write_type_spec-Writes (alias m n t) f w d (g, known, plain) fine =
      elim (Bool-cases (is_complex (kind t))) [
        | inl e ↦ rw e (complex-Writes (alias m n t) f w d (g, known, plain) fine)
        | inr e ↦ rw e (write_type_ref-Writes w dqmif_type_spec_simple m n fine (omega arith) g)
      ]
  write_type_spec-Writes (pointer t) f w d s fine = complex-Writes (pointer t) f w d s fine
  write_type_spec-Writes (array t len) f w d s fine = complex-Writes (array t len) f w d s fine
  write_type_spec-Writes (slice t) f w d s fine = complex-Writes (slice t) f w d s fine
  write_type_spec-Writes (dyn_array t) f w d s fine = complex-Writes (dyn_array t) f w d s fine
  write_type_spec-Writes (autofree t) f w d s fine = complex-Writes (autofree t) f w d s fine

inner_endless :
    (f : ℕ) (w : Writer) (m n : Bytes) (t : Ty)
    → w.error ≡ none
    → kind t ≡ tk_object_type
    → write_type_spec_inner f w (alias m n t) ≡ none
unfolding write_type_spec_inner enclosed
inner_endless zero w m n t fine k = refl
inner_endless (suc f) w m n t fine k =
    let (e, _, _) = empty_rec w dqmif_type_spec_begin fine (omega arith) in
    let w' = write_all w ((dqmif_type_spec_begin, []) ∷ []) in
    let fine' : w'.error ≡ none =
      write_all-fine ((dqmif_type_spec_begin, []) ∷ []) w fine ((omega arith, omega arith), tt) in
    rw (write_type_spec_inner, k, e, inner_endless f w' m n t fine' k)

-- WriteDqmIfTypeSpec never returns for an alias of an object type reference: whatever the fuel of its
-- recursion, it runs out.
pub write_type_spec_endless :
    (f : ℕ) (w : Writer) (m n : Bytes) (t : Ty)
    → w.error ≡ none
    → kind t ≡ tk_object_type
    → write_type_spec f w (alias m n t) ≡ none
unfolding write_type_spec enclosed
write_type_spec_endless f w m n t fine k =
    let (e, _, _) = empty_rec w dqmif_type_spec_begin fine (omega arith) in
    let w' = write_all w ((dqmif_type_spec_begin, []) ∷ []) in
    let fine' : w'.error ≡ none =
      write_all-fine ((dqmif_type_spec_begin, []) ∷ []) w fine ((omega arith, omega arith), tt) in
    rw (k, e, inner_endless f w' m n t fine' k)
