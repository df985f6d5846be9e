-- ===== src/DqmIf/Stream.antt =====
-- A stream of records, written by one AddRec after the other and read by NextRec until Eof.
use mathlib.Core.Option
use native.Mathlib.Nat.{le_refl}
use dq_lang.DqmIf.Padding.{pad_lem}
use dq_lang.DqmIf.Reader.{Reader, next_rec, eof, align, record_bytes}
use dq_lang.DqmIf.Records.{frame, add_rec_bytes_payload, next_rec-frame, frame_data, reader_at}
use dq_lang.DqmIf.Writer.{Writer, pad, add_rec_bytes}
use dq_lang.Prelude.{
  ℕ, zero, suc, ◌+◌, ◌^◌, ◌≤◌, ◌<◌, ◌≡◌, refl, sym, ◌∙◌, ap, true, false, Option, none, some, List,
  [], ◌∷◌, ◌++◌, append_assoc, append-nil, arith, Bytes, length, length-append, le→leb, lt→leb, All,
}

abbrev pub Rec : Type 0
Rec = ℕ × Bytes

-- The id and the length of a record fit in 16 bits.
abbrev pub Fits : Rec → Type 0
Fits (recid, d) = (recid < 2 ^ 16) × (length d < 2 ^ 16)

unfoldable pub write_all : Writer → List Rec → Writer
write_all w [] = w
write_all w ((recid, d) ∷ rs) = write_all (add_rec_bytes w recid d).0 rs

-- while (!Eof()) NextRec(), with fuel; `none` is a failure, or the end of the fuel.
unfoldable pub read_all : ℕ → Reader → Option (List Rec)
read_all zero r = none
read_all (suc f) r = elim (eof r) [
  | true ↦ some []
  | false ↦ elim (next_rec r).1 [
    | false ↦ none
    | true ↦
        Option.map (λ rs. ((next_rec r).0.recid, record_bytes (next_rec r).0) ∷ rs)
          (read_all f (next_rec r).0)
  ]
]

regroup : (a b c d : Bytes) → ((a ++ b) ++ c) ++ d ≡ a ++ (b ++ (c ++ d))
regroup a b c d = append_assoc (a ++ b) c d ∙ append_assoc a b (c ++ d)

-- What is written later stands behind what was written before.
pub write_all_prefix :
    (w : Writer) (rs : List Rec)
    → w.error ≡ none
    → All Fits rs
    → (rest : Bytes) × ((write_all w rs).payload ≡ w.payload ++ rest)
unfolding write_all
write_all_prefix w [] fine h = ([], sym (append-nil w.payload))
write_all_prefix w ((recid, d) ∷ rs) fine ((id_fits, small), h) =
    let (zeros, e, l) = pad_lem (w.payload ++ frame recid d) in
    let w' : Writer = record w { payload = pad (w.payload ++ frame recid d) } in
    let (rest, p) = write_all_prefix w' rs fine h in
    let written : add_rec_bytes w recid d ≡ (w', true) =
      add_rec_bytes_payload w recid d fine small in
    (
      frame recid d ++ (zeros ++ rest),
      ap (λ s. (write_all s.0 rs).payload) written
          ∙ p
          ∙ ap (λ b. b ++ rest) e
          ∙ regroup w.payload (frame recid d) zeros rest,
    )

-- NextRec after AddRec, with a 16-bit id and length and anything behind: the id, the data and the next
-- position come back.
pub next_rec-add_rec_bytes :
    (w : Writer) (recid : ℕ) (d rest : Bytes) (r : Reader)
    → w.error ≡ none
    → recid < 2 ^ 16
    → length d < 2 ^ 16
    → let w' = (add_rec_bytes w recid d).0 in
      let read = next_rec (reader_at (w'.payload ++ rest) (length w.payload) r) in
      (read.1 ≡ true)
      × (read.0.recid ≡ recid)
      × (read.0.reclen ≡ length d)
      × (record_bytes read.0 ≡ d)
      × (reader_at (w'.payload ++ rest) (length w'.payload) read.0 ≡ read.0)
unfolding record_bytes
next_rec-add_rec_bytes w recid d rest r fine id_fits small =
    let (zeros, e, l) = pad_lem (w.payload ++ frame recid d) in
    let padded : length ((w.payload ++ frame recid d) ++ zeros)
        ≡ align (length (w.payload ++ frame recid d)) =
      ap length (sym e) ∙ l in
    let whole : ((w.payload ++ frame recid d) ++ zeros) ++ rest
        ≡ w.payload ++ (frame recid d ++ (zeros ++ rest)) =
      regroup w.payload (frame recid d) zeros rest in
    rw
      (
        add_rec_bytes_payload w recid d fine small,
        e,
        whole,
        next_rec-frame w.payload d zeros rest recid r id_fits small padded,
      )
      (refl, refl, refl, frame_data w.payload d (zeros ++ rest) recid, refl)

pub add_rec_bytes-fine :
    (w : Writer) (recid : ℕ) (d : Bytes)
    → w.error ≡ none
    → length d < 2 ^ 16
    → (add_rec_bytes w recid d).0.error ≡ none
add_rec_bytes-fine w recid d fine small = rw (add_rec_bytes_payload w recid d fine small) fine

-- A record is not empty, so a reader in front of it is not at the end.
eof-add_rec_bytes :
    (w : Writer) (recid : ℕ) (d rest : Bytes) (r : Reader)
    → w.error ≡ none
    → length d < 2 ^ 16
    → eof (reader_at ((add_rec_bytes w recid d).0.payload ++ rest) (length w.payload) r) ≡ false
unfolding eof
eof-add_rec_bytes w recid d rest r fine small =
    let (zeros, e, l) = pad_lem (w.payload ++ frame recid d) in
    rw (add_rec_bytes_payload w recid d fine small, e, regroup w.payload (frame recid d) zeros rest)
      (lt→leb _ _ (omega (arith, length-append {0} w.payload (frame recid d ++ (zeros ++ rest)))))

read_all-eof : (f : ℕ) (r : Reader) → eof r ≡ true → read_all (suc f) r ≡ some []
unfolding read_all
read_all-eof f r e = rw (e, read_all)

read_all_rec :
    (f : ℕ) (r : Reader) {rs : List Rec} {recid : ℕ} {d : Bytes}
    → eof r ≡ false
    → (next_rec r).1 ≡ true
    → (next_rec r).0.recid ≡ recid
    → record_bytes (next_rec r).0 ≡ d
    → read_all f (next_rec r).0 ≡ some rs
    → read_all (suc f) r ≡ some ((recid, d) ∷ rs)
unfolding read_all
read_all_rec f r more ok id_back d_back later = ground arith

-- Reading a stream of records with 16-bit ids and lengths, written without an earlier error, to its
-- end gives the records back, in order.
pub read_all-write_all :
    (rs : List Rec) (w : Writer) (r : Reader)
    → w.error ≡ none
    → All Fits rs
    → read_all (suc (length rs)) (reader_at (write_all w rs).payload (length w.payload) r) ≡ some rs
unfolding write_all
read_all-write_all [] w r fine h =
    read_all-eof 0 (reader_at w.payload (length w.payload) r)
      (unfold eof in le→leb _ _ (le_refl (length w.payload)))
read_all-write_all ((recid, d) ∷ rs) w r fine ((id_fits, small), h) =
    let w' = (add_rec_bytes w recid d).0 in
    let fine' : w'.error ≡ none = add_rec_bytes-fine w recid d fine small in
    let (rest, p) = write_all_prefix w' rs fine' h in
    let start = reader_at (w'.payload ++ rest) (length w.payload) r in
    let (ok, id_back, len_back, d_back, pos_back) =
      next_rec-add_rec_bytes w recid d rest r fine id_fits small in
    let later : read_all (suc (length rs)) (next_rec start).0 ≡ some rs =
      ap (read_all (suc (length rs)))
        (sym pos_back ∙ ap (λ b. reader_at b (length w'.payload) (next_rec start).0) (sym p))
      ∙ read_all-write_all rs w' (next_rec start).0 fine' h in
    ap (λ b. read_all (suc (suc (length rs))) (reader_at b (length w.payload) r)) p
    ∙ read_all_rec (suc (length rs)) start (eof-add_rec_bytes w recid d rest r fine small) ok
        id_back d_back later

pub length-add_rec_bytes :
    (w : Writer) (recid : ℕ) (d : Bytes)
    → w.error ≡ none
    → length d < 2 ^ 16
    → length w.payload + 4 ≤ length (add_rec_bytes w recid d).0.payload
length-add_rec_bytes w recid d fine small =
    let (zeros, e, l) = pad_lem (w.payload ++ frame recid d) in
    rw (add_rec_bytes_payload w recid d fine small, e)
      (omega (
        arith,
        length-append {0} (w.payload ++ frame recid d) zeros,
        length-append {0} w.payload (frame recid d),
      ))
