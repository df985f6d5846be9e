-- ===== src/DqmIf/Records.antt =====
-- A record that AddRec wrote is the record that NextRec finds.
use dq_lang.DqmIf.Bytes.{le16, add_u16-append, read_u16_at, read_u16_at-le16}
use dq_lang.DqmIf.Reader.{Reader, next_rec, enter_rec, eof, align}
use dq_lang.DqmIf.Writer.{Writer, pad, add_rec_bytes}
use dq_lang.Prelude.{
  ℕ, ◌+◌, ◌%◌, ◌^◌, ◌<◌, ◌≡◌, refl, sym, ◌∙◌, ap, true, none, ◌++◌, append_assoc, arith, Bytes,
  length, length-append, take, drop, take-append, take-length, drop-append, le→ltb, lt→leb,
  and_false,
}

-- A record's bytes before the padding.
abbrev pub frame : ℕ → Bytes → Bytes
frame recid d = le16 recid ++ (le16 (length d) ++ d)

-- A successful AddRec appends the framed data and zeros up to a multiple of four.
pub add_rec_bytes_payload :
    (w : Writer) (recid : ℕ) (d : Bytes)
    → w.error ≡ none
    → length d < 2 ^ 16
    → add_rec_bytes w recid d ≡ (record w { payload = pad (w.payload ++ frame recid d) }, true)
unfolding add_rec_bytes
add_rec_bytes_payload w recid d fine small =
    let whole : length d % 2 ^ 16 ≡ length d = omega arith in
    let body = λ (b : Bytes). record w { payload = pad b } in
    rw
      (
        fine,
        le→ltb 65535 (length d) (omega arith),
        and_false,
        add_u16-append w.payload recid,
        add_u16-append (w.payload ++ le16 recid) (length d % 2 ^ 16),
        whole,
        take-length d,
      )
      (ap (λ b. (record w { payload = pad b; error = none }, true))
        (append_assoc (w.payload ++ le16 recid) (le16 (length d)) d
          ∙ append_assoc w.payload (le16 recid) (le16 (length d) ++ d)))

-- The header that NextRec reads where a frame starts, and the data behind it.
module _ (before d rest : Bytes) (recid : ℕ) where
  abbrev pub stream : Bytes
  stream = before ++ (frame recid d ++ rest)

  frame_header :
      recid < 2 ^ 16
      → length d < 2 ^ 16
      → (read_u16_at stream (length before) ≡ recid)
        × (read_u16_at stream (length before + 2) ≡ length d)
  frame_header id_fits small = (
    read_u16_at-le16 before (le16 (length d) ++ (d ++ rest)) (length before) recid refl id_fits,
    ap (λ s. read_u16_at s (length before + 2))
          (sym (append_assoc before (le16 recid) (le16 (length d) ++ (d ++ rest))))
        ∙ read_u16_at-le16 (before ++ le16 recid) (d ++ rest) (length before + 2) (length d)
            (omega (arith, length-append {0} before (le16 recid))) small,
  )

  pub frame_data : take (length d) (drop (length before + 4) stream) ≡ d
  frame_data =
      let header = le16 recid ++ le16 (length d) in
      let at : length before + 4 ≡ length (before ++ header) =
        omega (arith, length-append {0} before header) in
      let regroup : stream ≡ (before ++ header) ++ (d ++ rest) =
        sym (append_assoc before header (d ++ rest)) in
      rw (at, regroup, drop-append (before ++ header) (d ++ rest)) (take-append d rest)

abbrev pub reader_at : Bytes → ℕ → Reader → Reader
reader_at payload pos r = record r { payload = payload; error = none; pos = pos }

-- NextRec at a framed record: it takes the header and moves behind the padding.
pub next_rec-frame :
    (before d zeros rest : Bytes) (recid : ℕ) (r : Reader)
    → recid < 2 ^ 16
    → length d < 2 ^ 16
    → length ((before ++ frame recid d) ++ zeros) ≡ align (length (before ++ frame recid d))
    → next_rec (reader_at (before ++ (frame recid d ++ (zeros ++ rest))) (length before) r) ≡ (
      record {
        payload = before ++ (frame recid d ++ (zeros ++ rest));
        error = none;
        pos = length ((before ++ frame recid d) ++ zeros);
        recid = recid;
        reclen = length d;
        recpos = length before + 4;
      },
      true,
    )
unfolding next_rec eof enter_rec
next_rec-frame before d zeros rest recid r id_fits small padded =
    let s = before ++ (frame recid d ++ (zeros ++ rest)) in
    let (id_read, len_read) = frame_header before d (zeros ++ rest) recid id_fits small in
    let total : length s ≡ length before + (length (frame recid d) + (length zeros + length rest)) =
      omega (
        arith,
        length-append {0} before (frame recid d ++ (zeros ++ rest)),
        length-append {0} (frame recid d) (zeros ++ rest),
        length-append {0} zeros rest,
      ) in
    let framed : length (before ++ frame recid d) ≡ length before + 4 + length d =
      omega (arith, length-append {0} before (frame recid d)) in
    let closed : length ((before ++ frame recid d) ++ zeros)
        ≡ length (before ++ frame recid d) + length zeros =
      length-append (before ++ frame recid d) zeros in
    let room : length (frame recid d) ≡ 4 + length d = omega arith in
    rw
      (
        id_read,
        len_read,
        lt→leb (length s) (length before) (omega arith),
        le→ltb (length s) (length before + 4) (omega arith),
        le→ltb (length s) (length before + 4 + length d) (omega arith),
        ← framed,
        ← padded,
        le→ltb (length s) (length ((before ++ frame recid d) ++ zeros)) (omega arith),
      )
      refl
