-- ===== src/DqmIf/Group.antt =====
-- SkipGroup: it always returns, and it stops behind the record that closes the group.
use dq_lang.DqmIf.Bytes.{read_u16_at}
use dq_lang.DqmIf.Padding.{align_lem}
use dq_lang.DqmIf.Reader.{Reader, next_rec, enter_rec, eof, depth_after, skip_loop, skip_group}
use dq_lang.DqmIf.Records.{reader_at}
use dq_lang.DqmIf.Stream.{
  Rec, Fits, write_all, write_all_prefix, next_rec-add_rec_bytes, add_rec_bytes-fine,
  length-add_rec_bytes,
}
use dq_lang.DqmIf.Writer.{Writer, add_rec_bytes, is_none}
use dq_lang.Prelude.{
  ℕ, zero, suc, ◌+◌, ◌-◌, ◌%◌, ◌≤◌, ◌<◌, ◌≡◌, ◌≢◌, refl, sym, ◌∙◌, ap, Bool, true, false, Option,
  none, some, List, [], ◌∷◌, ◌++◌, append_assoc, arith, Bytes, length, length-append, All, ==_ne,
  ==_iff,
}

-- A record that NextRec enters lies inside the stream, and the position moves forward.
pub record InBounds (r q : Reader) : Type 0 where
  pub same_payload : q.payload ≡ r.payload
  pub forward : r.pos < q.pos
  pub aligned : q.pos % 4 ≡ 0
  pub pos_inside : q.pos ≤ length q.payload
  pub data_inside : q.recpos + q.reclen ≤ q.pos
  pub header_before : q.recpos ≡ r.pos + 4

-- A record that NextRec enters lies inside the payload, and the position moves forward to a multiple
-- of four behind it.
pub next_rec-InBounds : (r : Reader) → (next_rec r).1 ≡ true → InBounds r (next_rec r).0
unfolding next_rec enter_rec eof
next_rec-InBounds r h = ground (arith, align_lem (r.pos + 4 + read_u16_at r.payload (r.pos + 2)))

-- After a failure of NextRec the payload and the position are as before, and there is an error.
pub next_rec_failed :
    (r : Reader)
    → (next_rec r).1 ≡ false
    → ((next_rec r).0.payload ≡ r.payload)
      × ((next_rec r).0.pos ≡ r.pos)
      × (is_none (next_rec r).0.error ≡ false)
unfolding next_rec enter_rec eof
next_rec_failed r h = ground arith

skip_loop_total :
    (f begin_id end_id depth : ℕ) (r : Reader)
    → length r.payload - r.pos < f
    → skip_loop f begin_id end_id depth r ≢ none
unfolding skip_loop
skip_loop_total zero begin_id end_id depth r h = elim h [ ]
skip_loop_total (suc f) begin_id end_id depth r h =
    let q = (next_rec r).0 in
    ground (
      arith,
      next_rec-InBounds r,
      skip_loop_total f begin_id end_id (depth_after begin_id end_id q.recid depth) q,
    )

-- The fuel of SkipGroup is enough: the loop ends for every stream.
pub skip_group_total : (r : Reader) (begin_id end_id : ℕ) → skip_group r begin_id end_id ≢ none
unfolding skip_group
skip_group_total r begin_id end_id =
    ground (arith, skip_loop_total (length r.payload + 2) begin_id end_id 1 r)

-- The depth after the ids of some records, as long as it stays positive before each of them.
abbrev pub Closes : ℕ → ℕ → ℕ → List Rec → Type 0
Closes begin_id end_id depth [] = depth ≡ 0
Closes begin_id end_id depth ((recid, d) ∷ rs) =
    (depth ≢ 0) × Closes begin_id end_id (depth_after begin_id end_id recid depth) rs

skip_loop_here :
    (f begin_id end_id depth : ℕ) (r : Reader)
    → depth ≡ 0
    → skip_loop (suc f) begin_id end_id depth r ≡ some (r, true)
unfolding skip_loop
skip_loop_here f begin_id end_id depth r e = ground arith

skip_loop_step :
    (f begin_id end_id depth recid : ℕ) (r : Reader) {res : Option (Reader × Bool)}
    → depth ≢ 0
    → (next_rec r).1 ≡ true
    → (next_rec r).0.recid ≡ recid
    → skip_loop f begin_id end_id (depth_after begin_id end_id recid depth) (next_rec r).0 ≡ res
    → skip_loop (suc f) begin_id end_id depth r ≡ res
unfolding skip_loop
skip_loop_step f begin_id end_id depth recid r e ok id_back later =
    rw (==_ne depth 0 e, skip_loop, ok, id_back) later

skip_loop-Closes :
    (rs : List Rec) (f begin_id end_id depth : ℕ) (w : Writer) (rest : Bytes) (r : Reader)
    → w.error ≡ none
    → All Fits rs
    → Closes begin_id end_id depth rs
    → length rs < f
    → (q : Reader) × (skip_loop f begin_id end_id depth
          (reader_at ((write_all w rs).payload ++ rest) (length w.payload) r)
        ≡ some (q, true))
      × (reader_at ((write_all w rs).payload ++ rest) (length (write_all w rs).payload) q ≡ q)
unfolding write_all
skip_loop-Closes rs zero begin_id end_id depth w rest r fine h c enough = elim enough [ ]
skip_loop-Closes [] (suc f) begin_id end_id depth w rest r fine h c enough =
    (_, skip_loop_here f begin_id end_id depth _ c, refl)
skip_loop-Closes ((recid, d) ∷ rs) (suc f) begin_id end_id depth w rest r fine ((id_fits, small), h)
      (open_yet, c) enough =
    let w' = (add_rec_bytes w recid d).0 in
    let fine' : w'.error ≡ none = add_rec_bytes-fine w recid d fine small in
    let (more, p) = write_all_prefix w' rs fine' h in
    let split : (write_all w' rs).payload ++ rest ≡ w'.payload ++ (more ++ rest) =
      ap (λ b. b ++ rest) p ∙ append_assoc w'.payload more rest in
    let start = reader_at (w'.payload ++ (more ++ rest)) (length w.payload) r in
    let (ok, id_back, len_back, d_back, pos_back) =
      next_rec-add_rec_bytes w recid d (more ++ rest) r fine id_fits small in
    let (q, found, at) =
      skip_loop-Closes rs f begin_id end_id (depth_after begin_id end_id recid depth) w' rest
        (next_rec start).0 fine' h c (omega arith) in
    (
      q,
      ap (λ b. skip_loop (suc f) begin_id end_id depth (reader_at b (length w.payload) r)) split
          ∙ skip_loop_step f begin_id end_id depth recid start open_yet ok id_back (
              ap (skip_loop f begin_id end_id (depth_after begin_id end_id recid depth)) (
                sym pos_back
                ∙ ap (λ b. reader_at b (length w'.payload) (next_rec start).0) (sym split))
              ∙ found),
      at,
    )

length-write_all :
    (rs : List Rec) (w : Writer)
    → w.error ≡ none
    → All Fits rs
    → length w.payload + length rs ≤ length (write_all w rs).payload
unfolding write_all
length-write_all [] w fine h = omega arith
length-write_all ((recid, d) ∷ rs) w fine ((id_fits, small), h) = omega (
  arith,
  length-add_rec_bytes w recid d fine small,
  length-write_all rs (add_rec_bytes w recid d).0 (add_rec_bytes-fine w recid d fine small) h,
)

-- At the record that opens a group, SkipGroup moves over written records, with any groups of the same
-- kind inside, to the place behind the first one that closes it.
pub skip_group-Closes :
    (rs : List Rec) (begin_id end_id : ℕ) (w : Writer) (rest : Bytes) (r : Reader)
    → w.error ≡ none
    → All Fits rs
    → r.recid ≡ begin_id
    → Closes begin_id end_id 1 rs
    → (q : Reader) × (skip_group
          (reader_at ((write_all w rs).payload ++ rest) (length w.payload) r)
          begin_id
          end_id
        ≡ some (q, true))
      × (q.pos ≡ length (write_all w rs).payload)
      × (q.payload ≡ (write_all w rs).payload ++ rest)
unfolding skip_group
skip_group-Closes rs begin_id end_id w rest r fine h at_begin c =
    let size : length ((write_all w rs).payload ++ rest)
        ≡ length (write_all w rs).payload + length rest =
      length-append (write_all w rs).payload rest in
    let (q, found, at) =
      skip_loop-Closes rs (length ((write_all w rs).payload ++ rest) + 2) begin_id end_id 1 w rest r
        fine h c (omega (arith, length-write_all rs w fine h)) in
    (
      q,
      rw ((==_iff r.recid begin_id).1 at_begin) found,
      sym (ap (λ (s : Reader). s.pos) at),
      sym (ap (λ (s : Reader). s.payload) at),
    )
