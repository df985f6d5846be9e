-- ===== src/TypeSpec/Write.antt =====
-- WriteDqmIfTypeSpec, WriteDqmIfTypeSpecInner and WriteDqmIfTypeRef.
use dq_lang.DqmIf.Writer.{
  Writer, fail, add_rec_empty, add_rec_str, add_rec_i32, add_rec_string_pair, add_type_spec_rec,
  nil_type_spec, array_too_large,
}
use dq_lang.Prelude.{
  ℕ, zero, suc, ◌^◌, ◌-◌, Bool, true, false, not, Option, none, some, Bytes, length, ltb, ◌==◌,
  if◌then◌else◌,
}
use dq_lang.TypeSpec.Types.{
  Ty, kind, is_object_type, is_complex, dqmif_type_spec_simple, dqmif_type_spec_begin,
  dqmif_type_spec_name, dqmif_type_spec_ptr, dqmif_type_spec_qualified, dqmif_type_spec_end,
  dqmif_type_spec_array_begin, dqmif_type_spec_array_end, dqmif_type_spec_slice_begin,
  dqmif_type_spec_slice_end, dqmif_type_spec_dyn_array_begin, dqmif_type_spec_dyn_array_end,
  dqmif_type_spec_autofree_begin, dqmif_type_spec_autofree_end, dqmif_type_spec_object_type,
  dqmif_type_spec_object_type_qual, object, simple, alias, nil_pointer, untyped_pointer, pointer,
  array, slice, dyn_array, autofree, object_type,
}

unfoldable pub write_type_ref : Writer → ℕ → Bytes → Bytes → Writer × Bool
unfolding add_rec_string_pair add_type_spec_rec
write_type_ref w recid module_name name =
    if not (length module_name == 0)
    then add_rec_string_pair w dqmif_type_spec_qualified module_name name
    else add_type_spec_rec w recid name

-- OTypeObjectTypeRef::WriteDqmIfTypeSpec
unfoldable pub write_object_type_ref : Writer → Bytes → Bytes → Writer × Bool
unfolding add_rec_string_pair add_rec_str
write_object_type_ref w module_name name =
    if not (length module_name == 0)
    then add_rec_string_pair w dqmif_type_spec_object_type_qual module_name name
    else add_rec_str w dqmif_type_spec_object_type name

-- if (!first) return false; `none` means that the fuel of the recursion ran out.
abbrev pub and_then :
    Option (Writer × Bool) → (Writer → Option (Writer × Bool)) → Option (Writer × Bool)
and_then none k = none
and_then (some (w, false)) k = some (w, false)
and_then (some (w, true)) k = k w

-- A record without data, what `body` writes, and another record without data.
unfoldable pub enclosed :
    Writer → ℕ → (Writer → Option (Writer × Bool)) → ℕ → Option (Writer × Bool)
unfolding add_rec_empty
enclosed w begin_id body end_id =
    and_then (some (add_rec_empty w begin_id))
      λ v. and_then (body v) λ u. some (add_rec_empty u end_id)

-- The array wrapper, with its length in the first record.
unfoldable pub enclosed_array :
    Writer → ℕ → (Writer → Option (Writer × Bool)) → Option (Writer × Bool)
unfolding add_rec_empty add_rec_i32 fail
enclosed_array w len body =
    if ltb (2 ^ 31 - 1) len
    then some (fail w (array_too_large len))
    else and_then (some (add_rec_i32 w dqmif_type_spec_array_begin len))
        λ v. and_then (body v) λ u. some (add_rec_empty u dqmif_type_spec_array_end)

-- WriteDqmIfTypeSpecInner, with fuel for its recursion.
unfoldable pub write_type_spec_inner : ℕ → Writer → Ty → Option (Writer × Bool)
unfolding write_type_ref write_object_type_ref enclosed enclosed_array fail add_rec_empty
write_type_spec_inner zero w t = none
write_type_spec_inner (suc f) w (autofree t) =
    enclosed w dqmif_type_spec_autofree_begin (λ v. write_type_spec_inner f v t)
      dqmif_type_spec_autofree_end
write_type_spec_inner (suc f) w nil_pointer = some (fail w nil_type_spec)
write_type_spec_inner (suc f) w (untyped_pointer m n) =
    some (write_type_ref w dqmif_type_spec_name m n)
write_type_spec_inner (suc f) w (pointer t) =
    and_then (some (add_rec_empty w dqmif_type_spec_ptr)) λ v. write_type_spec_inner f v t
write_type_spec_inner (suc f) w (array t len) =
    enclosed_array w len λ v. write_type_spec_inner f v t
write_type_spec_inner (suc f) w (slice t) =
    enclosed w dqmif_type_spec_slice_begin (λ v. write_type_spec_inner f v t)
      dqmif_type_spec_slice_end
write_type_spec_inner (suc f) w (dyn_array t) =
    enclosed w dqmif_type_spec_dyn_array_begin (λ v. write_type_spec_inner f v t)
      dqmif_type_spec_dyn_array_end
write_type_spec_inner (suc f) w (object_type m n) = some (write_object_type_ref w m n)
write_type_spec_inner (suc f) w (object m n) = some (write_type_ref w dqmif_type_spec_name m n)
write_type_spec_inner (suc f) w (simple m n) = some (write_type_ref w dqmif_type_spec_name m n)
write_type_spec_inner (suc f) w (alias m n t) = elim (is_object_type (kind t)) [
  | true ↦
      -- The alias' own WriteDqmIfTypeSpec, whose kind is TK_OBJECT_TYPE too.
      enclosed w dqmif_type_spec_begin (λ v. write_type_spec_inner f v (alias m n t))
        dqmif_type_spec_end
  | false ↦ some (write_type_ref w dqmif_type_spec_name m n)
]

abbrev pub complex : ℕ → Writer → Ty → Option (Writer × Bool)
complex f w t =
    enclosed w dqmif_type_spec_begin (λ v. write_type_spec_inner f v t) dqmif_type_spec_end

-- WriteDqmIfTypeSpec
unfoldable pub write_type_spec : ℕ → Writer → Ty → Option (Writer × Bool)
unfolding write_type_spec_inner write_type_ref write_object_type_ref enclosed fail
write_type_spec f w nil_pointer = some (fail w nil_type_spec)
write_type_spec f w (untyped_pointer m n) = some (write_type_ref w dqmif_type_spec_simple m n)
write_type_spec f w (object_type m n) = some (write_object_type_ref w m n)
write_type_spec f w (object m n) = some (write_type_ref w dqmif_type_spec_simple m n)
write_type_spec f w (simple m n) = some (write_type_ref w dqmif_type_spec_simple m n)
write_type_spec f w (alias m n t) =
    if is_complex (kind t)
    then complex f w (alias m n t)
    else some (write_type_ref w dqmif_type_spec_simple m n)
write_type_spec f w t = complex f w t
