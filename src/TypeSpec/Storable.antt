-- ===== src/TypeSpec/Storable.antt =====
-- The types that can be stored, and the writer's calls one after the other.
use dq_lang.DqmIf.Bytes.{le32, add_u32, add_u32-append}
use dq_lang.DqmIf.Records.{add_rec_bytes_payload}
use dq_lang.DqmIf.Stream.{Rec, Fits, write_all, add_rec_bytes-fine}
use dq_lang.DqmIf.Writer.{
  Writer, add_rec_bytes, add_rec_empty, add_rec_str, add_rec_i32, add_rec_u32, add_rec_string_pair,
  add_type_spec_rec,
}
use dq_lang.Prelude.{
  ℕ, ◌+◌, ◌^◌, ◌<◌, ◌≡◌, ◌≢◌, refl, ap, Bool, true, false, Option, none, some, List, [], ◌∷◌, ◌++◌,
  arith, Bytes, length, length-append, All, All-append, le→ltb, ==_ne, Bool-cases, ◌==◌,
  if◌then◌else◌, inl, inr, ◌-◌,
}
use dq_lang.TypeSpec.Read.{Names}
use dq_lang.TypeSpec.Types.{
  Ty, kind, resolve_alias, is_object_type, is_ownable, object, simple, alias, nil_pointer,
  untyped_pointer, pointer, array, slice, dyn_array, autofree, object_type,
  dqmif_type_spec_qualified, dqmif_type_spec_array_begin, dqmif_type_spec_array_end,
  dqmif_type_spec_object_type, dqmif_type_spec_object_type_qual,
}
use dq_lang.TypeSpec.Records.{name_rec, enclosed_recs, inner_recs}
use dq_lang.TypeSpec.Write.{
  and_then, write_type_ref, write_object_type_ref, enclosed, enclosed_array,
}

-- What the names of a module answer for a type that is written by its name.
abbrev pub look_up : Names → Bytes → Bytes → Option Ty
look_up names m n =
    if length m == 0 then names.resolve_type_name n else names.resolve_qualified_type m n

-- A module's name without a zero byte and a type's name that fit in one record.
abbrev pub GoodName : Bytes → Bytes → Type 0
GoodName m n = (length n ≢ 0) × (length m + 1 + length n < 2 ^ 16) × All (λ b. b ≢ 0) m

-- A type that is written, and whose names lead back to their types: no nil pointer, no array of more
-- than 2^31 - 1 elements, no alias of an object type reference, autofree over objects and pointers.
abbrev pub Storable : Names → Ty → Type 0
Storable names nil_pointer = ◌≡◌ {A = ℕ} 0 1
Storable names (untyped_pointer m n) =
    GoodName m n × (look_up names m n ≡ some (untyped_pointer m n))
Storable names (object m n) = GoodName m n × (look_up names m n ≡ some (object m n))
Storable names (simple m n) = GoodName m n × (look_up names m n ≡ some (simple m n))
Storable names (alias m n t) =
    GoodName m n × (look_up names m n ≡ some (alias m n t)) × (is_object_type (kind t) ≡ false)
Storable names (object_type m n) =
    GoodName m n × ((t : Ty) × (look_up names m n ≡ some t) × (resolve_alias t ≡ object m n))
Storable names (pointer t) = Storable names t
Storable names (array t len) = (len < 2 ^ 31) × Storable names t
Storable names (slice t) = Storable names t
Storable names (dyn_array t) = Storable names t
Storable names (autofree t) = (is_ownable (kind (resolve_alias t)) ≡ true) × Storable names t

-- A call of the writer that ended, wrote these records and returned true.
abbrev pub Writes : Option (Writer × Bool) → Writer → List Rec → Type 0
Writes call w rs = (call ≡ some (write_all w rs, true)) × All Fits rs × (w.error ≡ none)

pub write_all-append :
    (xs ys : List Rec) (w : Writer) → write_all (write_all w xs) ys ≡ write_all w (xs ++ ys)
unfolding write_all
write_all-append [] ys w = refl
write_all-append ((recid, d) ∷ xs) ys w = write_all-append xs ys (add_rec_bytes w recid d).0

pub write_all-fine :
    (rs : List Rec) (w : Writer) → w.error ≡ none → All Fits rs → (write_all w rs).error ≡ none
unfolding write_all
write_all-fine [] w fine h = fine
write_all-fine ((recid, d) ∷ rs) w fine ((id_fits, small), h) =
    write_all-fine rs (add_rec_bytes w recid d).0 (add_rec_bytes-fine w recid d fine small) h

pub one_rec :
    (w : Writer) (recid : ℕ) (d : Bytes)
    → w.error ≡ none
    → recid < 2 ^ 16
    → length d < 2 ^ 16
    → Writes (some (add_rec_bytes w recid d)) w ((recid, d) ∷ [])
unfolding write_all
one_rec w recid d fine id_fits small = (
  ap (λ (b : Bool). some ((add_rec_bytes w recid d).0, b))
      (ap (λ (x : Writer × Bool). x.1) (add_rec_bytes_payload w recid d fine small)),
  ((id_fits, small), tt),
  fine,
)

-- Two calls in a row write their records in a row.
pub Writes-and_then :
    (call : Option (Writer × Bool)) (k : Writer → Option (Writer × Bool)) (w : Writer)
    (xs ys : List Rec)
    → Writes call w xs
    → ((v : Writer) → v.error ≡ none → Writes (k v) v ys)
    → Writes (and_then call k) w (xs ++ ys)
Writes-and_then call k w xs ys (e, h, fine) next =
    let (e', h', _) = next (write_all w xs) (write_all-fine xs w fine h) in
    (rw (e, e', write_all-append xs ys w), All-append Fits xs ys h h', fine)

pub empty_rec :
    (w : Writer) (recid : ℕ)
    → w.error ≡ none
    → recid < 2 ^ 16
    → Writes (some (add_rec_empty w recid)) w ((recid, []) ∷ [])
unfolding add_rec_empty add_rec_bytes
empty_rec w recid fine id_fits = one_rec w recid [] fine id_fits (omega arith)

pub enclosed-Writes :
    (w : Writer) (begin_id end_id : ℕ) (body : Writer → Option (Writer × Bool)) (rs : List Rec)
    → w.error ≡ none
    → begin_id < 2 ^ 16
    → end_id < 2 ^ 16
    → ((v : Writer) → v.error ≡ none → Writes (body v) v rs)
    → Writes (enclosed w begin_id body end_id) w (enclosed_recs begin_id rs end_id)
unfolding enclosed
enclosed-Writes w begin_id end_id body rs fine b e inside =
    Writes-and_then (some (add_rec_empty w begin_id)) _ w ((begin_id, []) ∷ [])
      (rs ++ (end_id, []) ∷ []) (empty_rec w begin_id fine b)
      λ v fine_v.
        Writes-and_then (body v) (λ u. some (add_rec_empty u end_id)) v rs ((end_id, []) ∷ [])
          (inside v fine_v) λ u fine_u. empty_rec u end_id fine_u e

pub enclosed_array-Writes :
    (w : Writer) (len : ℕ) (body : Writer → Option (Writer × Bool)) (rs : List Rec)
    → w.error ≡ none
    → len < 2 ^ 31
    → ((v : Writer) → v.error ≡ none → Writes (body v) v rs)
    → Writes
        (enclosed_array w len body)
        w
        ((dqmif_type_spec_array_begin, le32 len) ∷ (rs ++ (dqmif_type_spec_array_end, []) ∷ []))
unfolding enclosed_array add_rec_i32 add_rec_u32
enclosed_array-Writes w len body rs fine small inside =
    let written : add_u32 [] len ≡ le32 len = add_u32-append [] len in
    rw (le→ltb (2 ^ 31 - 1) len (omega arith), written)
      (Writes-and_then (some (add_rec_bytes w dqmif_type_spec_array_begin (le32 len))) _ w
        ((dqmif_type_spec_array_begin, le32 len) ∷ []) (rs ++ (dqmif_type_spec_array_end, []) ∷ [])
        (one_rec w dqmif_type_spec_array_begin (le32 len) fine (omega arith) (omega arith))
        λ v fine_v.
          Writes-and_then (body v) (λ u. some (add_rec_empty u dqmif_type_spec_array_end)) v rs
            ((dqmif_type_spec_array_end, []) ∷ []) (inside v fine_v)
            λ u fine_u. empty_rec u dqmif_type_spec_array_end fine_u (omega arith))

name_rec-Fits :
    (plain qualified : ℕ) (m n : Bytes)
    → plain < 2 ^ 16
    → qualified < 2 ^ 16
    → GoodName m n
    → Fits (name_rec plain qualified m n)
name_rec-Fits plain qualified m n p q (some_name, small, zero_free) =
    let pair : length ((m ++ 0 ∷ []) ++ n) ≡ length m + 1 + length n =
      omega (arith, length-append {0} (m ++ 0 ∷ []) n, length-append {0} m (0 ∷ [])) in
    ground arith

add_type_spec_rec-bytes :
    (w : Writer) (recid : ℕ) (n : Bytes)
    → length n ≢ 0
    → add_type_spec_rec w recid n ≡ add_rec_bytes w recid n
unfolding add_type_spec_rec add_rec_str add_rec_bytes
add_type_spec_rec-bytes w recid n some_name = rw (==_ne (length n) 0 some_name)

pub write_type_ref-Writes :
    (w : Writer) (recid : ℕ) (m n : Bytes)
    → w.error ≡ none
    → recid < 2 ^ 16
    → GoodName m n
    → Writes
        (some (write_type_ref w recid m n))
        w
        (name_rec recid dqmif_type_spec_qualified m n ∷ [])
unfolding write_type_ref add_rec_string_pair add_rec_bytes
write_type_ref-Writes w recid m n fine id_fits (some_name, small, zero_free) =
    let pair : length ((m ++ 0 ∷ []) ++ n) ≡ length m + 1 + length n =
      omega (arith, length-append {0} (m ++ 0 ∷ []) n, length-append {0} m (0 ∷ [])) in
    elim (Bool-cases (length m == 0)) [
      | inl e ↦
          rw (e, add_type_spec_rec-bytes w recid n some_name)
            (one_rec w recid n fine id_fits (omega arith))
      | inr e ↦ rw e (
          one_rec w dqmif_type_spec_qualified ((m ++ 0 ∷ []) ++ n) fine (omega arith) (omega arith))
    ]

pub write_object_type_ref-Writes :
    (w : Writer) (m n : Bytes)
    → w.error ≡ none
    → GoodName m n
    → Writes (some (write_object_type_ref w m n)) w (inner_recs (object_type m n))
unfolding write_object_type_ref add_rec_string_pair add_rec_str add_rec_bytes
write_object_type_ref-Writes w m n fine (some_name, small, zero_free) =
    let pair : length ((m ++ 0 ∷ []) ++ n) ≡ length m + 1 + length n =
      omega (arith, length-append {0} (m ++ 0 ∷ []) n, length-append {0} m (0 ∷ [])) in
    elim (Bool-cases (length m == 0)) [
      | inl e ↦ rw e (one_rec w dqmif_type_spec_object_type n fine (omega arith) (omega arith))
      | inr e ↦ rw e (
          one_rec w dqmif_type_spec_object_type_qual ((m ++ 0 ∷ []) ++ n) fine (omega arith)
            (omega arith))
    ]
