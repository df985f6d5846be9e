-- ===== src/TypeSpec/Fuel.antt =====
-- The recursion of ReadTypeSpec ends, if the reading of function signatures does.
use dq_lang.DqmIf.Reader.{Reader, fail, next_rec, read_i32, read_u32}
use dq_lang.DqmIf.Group.{next_rec-InBounds}
use dq_lang.Prelude.{
  ℕ, zero, suc, ◌≢◌, none, some, ◌<◌, ◌-◌, refl, inl, inr, arith, Bool-cases, length, ap, not,
  if◌then◌else◌, ◌==◌, Bool,
}
use dq_lang.DqmIf.Writer.{bad_autofree}
use dq_lang.DqmIf.Bytes.{read_u32_at}
use dq_lang.TypeSpec.Types.{
  Ty, kind, resolve_alias, is_ownable, dqmif_type_spec_end, dqmif_type_spec_array_end,
  dqmif_type_spec_autofree_end, pointer, array, autofree, dqmif_type_spec_slice_begin,
  dqmif_type_spec_slice_end, dqmif_type_spec_dyn_array_begin, dqmif_type_spec_dyn_array_end, slice,
  dyn_array, dqmif_type_spec_objfuncref,
}
use dq_lang.TypeSpec.Read.{
  ReadAll, after_next, and_then, closed, Names, between, read_pointer, read_array, read_autofree,
  read_type_spec_inner, read_type_spec_by, read_type_spec, read_funcref,
}

and_then_total :
    (x : ReadAll) (k : Reader → Ty → ReadAll)
    → x ≢ none
    → ((q : Reader) (t : Ty) → k q t ≢ none)
    → and_then x k ≢ none
and_then_total none k h l = absurd (h refl)
and_then_total (some (r, none)) k h l = λ e. ground arith
and_then_total (some (r, some t)) k h l = l r t

closed_total : (end_id : ℕ) (t : Ty) (r : Reader) → closed end_id t r ≢ none
unfolding closed
closed_total end_id t r = ground arith

-- A reading of a type that ends wherever the position is behind that of the reader.
abbrev EndsBehind : (Reader → ReadAll) → Reader → Type 0
EndsBehind sub r = (q : Reader) → length q.payload - q.pos < length r.payload - r.pos → sub q ≢ none

after_next_total :
    (sub : Reader → ReadAll) (r : Reader) → EndsBehind sub r → after_next sub r ≢ none
unfolding after_next
after_next_total sub r h = elim (Bool-cases (next_rec r).1) [
  | inl e ↦
      let inside = next_rec-InBounds r e in
      rw (after_next, e)
        (h (next_rec r).0
          (omega (arith, ap length inside.same_payload, inside.forward, inside.pos_inside)))
  | inr e ↦ rw (after_next, e) (λ f. ground arith)
]

-- ReadFunctionRefTypeSpec ends.
abbrev pub SignaturesEnd : Names → Type 0
SignaturesEnd names = (r : Reader) (b : Bool) → names.read_function_ref r b ≢ none

module _ (sub : Reader → ReadAll) (r : Reader) (h : EndsBehind sub r) where
  between_total : (begin_id end_id : ℕ) (wrap : Ty → Ty) → between sub begin_id wrap end_id r ≢ none
  unfolding between
  between_total begin_id end_id wrap =
      let inside =
        and_then_total (after_next sub r) (λ q t. closed end_id (wrap t) q)
          (after_next_total sub r h) (λ q t. closed_total end_id (wrap t) q) in
      ground arith

  read_pointer_total : read_pointer sub r ≢ none
  unfolding read_pointer
  read_pointer_total =
      let inside =
        and_then_total (after_next sub r) (λ q t. some (q, some (pointer t)))
          (after_next_total sub r h) (λ q t e. ground arith) in
      ground arith

  read_array_found : (len : ℕ) → read_array sub r (r, some len) ≢ none
  unfolding read_array
  read_array_found len =
      let inside =
        and_then_total (after_next sub r) (λ q t. closed dqmif_type_spec_array_end (array t len) q)
          (after_next_total sub r h) (λ q t. closed_total _ _ q) in
      ground arith

  read_array_refused : (q : Reader) → read_array sub r (q, none) ≢ none
  unfolding read_array
  read_array_refused q = ground arith

  read_array_total : read_array sub r (read_i32 r) ≢ none
  unfolding read_i32 read_u32
  read_array_total = elim (Bool-cases (r.reclen == 4)) [
    | inl e ↦ rw e (read_array_found (read_u32_at r.payload r.recpos))
    | inr e ↦ rw e (read_array_refused _)
  ]

  read_autofree_total : read_autofree sub r ≢ none
  unfolding read_autofree
  read_autofree_total =
      let inside =
        and_then_total (after_next sub r)
          (λ q t.
            if not (is_ownable (kind (resolve_alias t)))
            then some ((fail q bad_autofree).0, none)
            else closed dqmif_type_spec_autofree_end (autofree t) q)
          (after_next_total sub r h)
          (λ q t. ground (arith, closed_total dqmif_type_spec_autofree_end (autofree t) q)) in
      ground arith

  read_type_spec_inner_total : read_type_spec_inner sub r ≢ none
  unfolding read_type_spec_inner
  read_type_spec_inner_total = ground (
    arith,
    read_pointer_total,
    read_array_total,
    between_total dqmif_type_spec_slice_begin dqmif_type_spec_slice_end slice,
    between_total dqmif_type_spec_dyn_array_begin dqmif_type_spec_dyn_array_end dyn_array,
    read_autofree_total,
  )

  read_funcref_total : (names : Names) → SignaturesEnd names → read_funcref names r ≢ none
  unfolding read_funcref
  read_funcref_total names ends = elim (Bool-cases (r.reclen == 0)) [
    | inl e ↦ rw e (ends r (r.recid == dqmif_type_spec_objfuncref))
    | inr e ↦ rw e (λ h. ground arith)
  ]

  read_type_spec_by_total :
      (names : Names) → SignaturesEnd names → read_type_spec_by names sub r ≢ none
  unfolding read_type_spec_by
  read_type_spec_by_total names ends =
      let inside =
        and_then_total (after_next sub r) (λ q t. closed dqmif_type_spec_end t q)
          (after_next_total sub r h) (λ q t. closed_total _ _ q) in
      ground (arith, read_type_spec_inner_total, inside, read_funcref_total names ends)

-- Fuel above the number of bytes behind the position is enough for ReadTypeSpec, whatever they are, if
-- the reading of function signatures ends.
pub read_type_spec_total :
    (names : Names)
    → SignaturesEnd names
    → (f : ℕ) (r : Reader) → length r.payload - r.pos < f
    → read_type_spec names f r ≢ none
unfolding read_type_spec
read_type_spec_total names ends zero r h = absurd (omega arith)
read_type_spec_total names ends (suc f) r h =
    read_type_spec_by_total (read_type_spec names f) r
      (λ q closer. read_type_spec_total names ends f q (omega arith)) names ends
