-- ===== src/TypeSpec/Read.antt =====
-- OModuleIntf::ReadTypeSpec and ReadTypeSpecInner.
use dq_lang.DqmIf.Reader.{
  Reader, Read, fail, next_rec, expect_empty, read_string, read_string_pair, read_i32,
}
use dq_lang.DqmIf.Writer.{
  DqmError, unknown_type, bad_array_length, bad_autofree, no_type_spec, unexpected_type_record,
}
use dq_lang.Prelude.{
  ℕ, zero, suc, ◌^◌, ◌-◌, Bool, true, false, not, ◌||◌, Option, none, some, Bytes, ltb, ◌==◌,
  if◌then◌else◌,
}
use dq_lang.TypeSpec.Types.{
  Ty, kind, resolve_alias, is_ownable, as_object, dqmif_type_spec_simple, dqmif_type_spec_begin,
  dqmif_type_spec_name, dqmif_type_spec_ptr, dqmif_type_spec_qualified, dqmif_type_spec_end,
  dqmif_type_spec_array_begin, dqmif_type_spec_array_end, dqmif_type_spec_slice_begin,
  dqmif_type_spec_slice_end, dqmif_type_spec_dyn_array_begin, dqmif_type_spec_dyn_array_end,
  dqmif_type_spec_autofree_begin, dqmif_type_spec_autofree_end, dqmif_type_spec_funcref,
  dqmif_type_spec_objfuncref, dqmif_type_spec_object_type, dqmif_type_spec_object_type_qual,
  pointer, array, slice, dyn_array, autofree, object_type,
}

-- The symbols of the module and of the modules it uses: ResolveDqmIfTypeName,
-- ResolveDqmIfQualifiedType and ReadFunctionRefTypeSpec. The last reads types in its turn: `none`
-- means that it does not end.
pub record Names : Type 0 where
  pub resolve_type_name : Bytes → Option Ty
  pub resolve_qualified_type : Bytes → Bytes → Option Ty
  pub read_function_ref : Reader → Bool → Option (Read Ty)

abbrev refuse : Reader → DqmError → Read Ty
refuse r e = ((fail r e).0, none)

-- `none` means that the fuel of the recursion ran out.
abbrev pub ReadAll : Type 0
ReadAll = Option (Read Ty)

-- if (!reader.NextRec() || !ReadTypeSpec(...)) return false;
unfoldable pub after_next : (Reader → ReadAll) → Reader → ReadAll
unfolding next_rec
after_next sub r = elim (next_rec r).1 [
  | false ↦ some ((next_rec r).0, none)
  | true ↦ sub (next_rec r).0
]

-- What follows a type that was read, or the failure to read it.
abbrev pub and_then : ReadAll → (Reader → Ty → ReadAll) → ReadAll
and_then none k = none
and_then (some (r, none)) k = some (r, none)
and_then (some (r, some t)) k = k r t

-- if (!reader.NextRec() || !reader.ExpectEmpty(end_id)) return false;
unfoldable pub closed : ℕ → Ty → Reader → ReadAll
unfolding next_rec expect_empty
closed end_id t r = elim (next_rec r).1 [
  | false ↦ some ((next_rec r).0, none)
  | true ↦ elim (expect_empty (next_rec r).0 end_id).1 [
    | false ↦ some ((expect_empty (next_rec r).0 end_id).0, none)
    | true ↦ some ((expect_empty (next_rec r).0 end_id).0, some t)
  ]
]

-- A type between two records without data.
unfoldable pub between : (Reader → ReadAll) → ℕ → (Ty → Ty) → ℕ → Reader → ReadAll
unfolding expect_empty after_next closed
between sub begin_id wrap end_id r = elim (expect_empty r begin_id).1 [
  | false ↦ some ((expect_empty r begin_id).0, none)
  | true ↦ and_then (after_next sub r) λ q t. closed end_id (wrap t) q
]

unfoldable pub read_pointer : (Reader → ReadAll) → Reader → ReadAll
unfolding expect_empty after_next
read_pointer sub r = elim (expect_empty r dqmif_type_spec_ptr).1 [
  | false ↦ some ((expect_empty r dqmif_type_spec_ptr).0, none)
  | true ↦ and_then (after_next sub r) λ q t. some (q, some (pointer t))
]

-- arraylen < 0 in two's complement.
unfoldable pub read_array : (Reader → ReadAll) → Reader → Read ℕ → ReadAll
unfolding fail after_next closed
read_array sub r (q, none) = some (refuse q bad_array_length)
read_array sub r (q, some len) =
    if ltb (2 ^ 31 - 1) len
    then some (refuse q bad_array_length)
    else and_then (after_next sub q) λ p t. closed dqmif_type_spec_array_end (array t len) p

unfoldable pub read_autofree : (Reader → ReadAll) → Reader → ReadAll
unfolding expect_empty after_next closed kind resolve_alias fail
read_autofree sub r = elim (expect_empty r dqmif_type_spec_autofree_begin).1 [
  | false ↦ some ((expect_empty r dqmif_type_spec_autofree_begin).0, none)
  | true ↦ and_then (after_next sub r) λ q t.
      if not (is_ownable (kind (resolve_alias t)))
      then some (refuse q bad_autofree)
      else closed dqmif_type_spec_autofree_end (autofree t) q
]

-- ReadTypeSpecInner, with ReadTypeSpec for the types inside.
unfoldable pub read_type_spec_inner : (Reader → ReadAll) → Reader → ReadAll
unfolding read_pointer read_array read_i32 between read_autofree fail
read_type_spec_inner sub r =
    if r.recid == dqmif_type_spec_ptr
    then read_pointer sub r
    else if r.recid == dqmif_type_spec_array_begin
    then read_array sub r (read_i32 r)
    else if r.recid == dqmif_type_spec_slice_begin
    then between sub dqmif_type_spec_slice_begin slice dqmif_type_spec_slice_end r
    else if r.recid == dqmif_type_spec_dyn_array_begin
    then between sub dqmif_type_spec_dyn_array_begin dyn_array dqmif_type_spec_dyn_array_end r
    else if r.recid == dqmif_type_spec_autofree_begin
    then read_autofree sub r
    else if r.recid == dqmif_type_spec_end
    then some (refuse r no_type_spec)
    else some (refuse r (unexpected_type_record r.recid))

-- A name that was read, resolved: if (!rtype) return reader.Fail(...).
unfoldable pub resolved : Reader → Bytes → Option Ty → Read Ty
unfolding fail
resolved r name none = refuse r (unknown_type name)
resolved r name (some t) = (r, some t)

-- The object type with this name, behind any aliases.
unfoldable pub resolved_object : Reader → Bytes → Option Ty → Read Ty
unfolding fail resolve_alias
resolved_object r name none = refuse r (unknown_type name)
resolved_object r name (some t) = elim (as_object (resolve_alias t)) [
  | none ↦ refuse r (unknown_type name)
  | some (m, n) ↦ (r, some (object_type m n))
]

module _ (names : Names) where
  -- A single name, or a module's name with a name of it.
  unfoldable pub read_name : (Reader → Bytes → Option Ty → Read Ty) → Reader → Read Ty
  unfolding read_string
  read_name answer r = elim (read_string r).1 [
    | none ↦ ((read_string r).0, none)
    | some name ↦ answer (read_string r).0 name (names.resolve_type_name name)
  ]

  unfoldable pub read_qualified : (Reader → Bytes → Option Ty → Read Ty) → Reader → Read Ty
  unfolding read_string_pair
  read_qualified answer r = elim (read_string_pair r).1 [
    | none ↦ ((read_string_pair r).0, none)
    | some (module_name, name) ↦
        answer (read_string_pair r).0 name (names.resolve_qualified_type module_name name)
  ]

  unfoldable pub read_funcref : Reader → ReadAll
  unfolding read_name resolved
  read_funcref r =
      if not (r.reclen == 0)
      then some (read_name resolved r)
      else names.read_function_ref r (r.recid == dqmif_type_spec_objfuncref)

  -- ReadTypeSpec behind its tests of the kind of the current record.
  unfoldable pub read_type_spec_by : (Reader → ReadAll) → Reader → ReadAll
  unfolding read_name read_qualified read_funcref resolved resolved_object after_next closed
      read_type_spec_inner
  read_type_spec_by sub r =
      if r.recid == dqmif_type_spec_qualified
      then some (read_qualified resolved r)
      else if r.recid == dqmif_type_spec_simple || r.recid == dqmif_type_spec_name
      then some (read_name resolved r)
      else if r.recid == dqmif_type_spec_funcref || r.recid == dqmif_type_spec_objfuncref
      then read_funcref r
      else if r.recid == dqmif_type_spec_object_type_qual
      then some (read_qualified resolved_object r)
      else if r.recid == dqmif_type_spec_object_type
      then some (read_name resolved_object r)
      else if r.recid == dqmif_type_spec_begin
      then and_then (after_next sub r) (λ q t. closed dqmif_type_spec_end t q)
      else read_type_spec_inner sub r

  unfoldable pub read_type_spec : ℕ → Reader → ReadAll
  unfolding read_type_spec_by
  read_type_spec zero r = none
  read_type_spec (suc f) r = read_type_spec_by (read_type_spec f) r
