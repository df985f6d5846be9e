-- ===== src/DqmIf/Scalars.antt =====
-- Each typed record that is written is the value that the matching read returns.
use dq_lang.DqmIf.Bytes.{
  le32, le64, add_u32, add_u64, add_u32-append, add_u64-append, read_u32_at, read_u64_at,
  read_u32_at-le32, read_u64_at-le64,
}
use dq_lang.DqmIf.Reader.{
  Reader, next_rec, record_bytes, read_u32, read_u64, split_zero, read_string_pair,
}
use dq_lang.DqmIf.Records.{reader_at}
use dq_lang.DqmIf.Stream.{next_rec-add_rec_bytes}
use dq_lang.DqmIf.Writer.{Writer, add_rec_bytes, add_rec_u32, add_rec_u64, add_rec_string_pair}
use dq_lang.Prelude.{
  ℕ, ◌+◌, ◌^◌, ◌≤◌, ◌<◌, ◌≡◌, ◌≢◌, refl, sym, ◌∙◌, ap, none, some, [], ◌∷◌, ◌++◌, arith, Bytes,
  length, length-append, All, take, drop, length-take-le, length-take, length-drop,
  take-append-drop,
}

-- Two strings, both non-empty and the first without a zero byte, are split where they were joined.
pub split_zero-append :
    (x y : Bytes) → All (λ b. b ≢ 0) x → split_zero ((x ++ 0 ∷ []) ++ y) ≡ some (x, y)
unfolding split_zero
split_zero-append [] y h = refl
split_zero-append (b ∷ x) y (hb, h) = ground (arith, split_zero-append x y h)

-- Bytes that are found at a position stand between a prefix of that length and a rest.
bytes_at :
    (p : Bytes) (q n : ℕ) (d : Bytes)
    → take n (drop q p) ≡ d
    → 0 < length d
    → (pre : Bytes) × (rest : Bytes) × (p ≡ pre ++ (d ++ rest)) × (q ≡ length pre)
bytes_at p q n d e h =
    let inside : q ≤ length p =
      omega (arith, ap length e, length-take-le n (drop q p), length-drop q p) in
    (
      take q p,
      drop n (drop q p),
      sym (take-append-drop q p)
          ∙ ap (λ b. take q p ++ b) (sym (take-append-drop n (drop q p)))
          ∙ ap (λ b. take q p ++ (b ++ drop n (drop q p))) e,
      sym (length-take q p inside),
    )

pub read_u32-bytes :
    (r : Reader) (v : ℕ)
    → v < 2 ^ 32
    → r.reclen ≡ 4
    → record_bytes r ≡ le32 v
    → read_u32 r ≡ (r, some v)
unfolding read_u32 record_bytes
read_u32-bytes r v h four e =
    let (pre, rest, split, at) = bytes_at r.payload r.recpos r.reclen (le32 v) e (omega arith) in
    let value : read_u32_at r.payload r.recpos ≡ v =
      ap (λ b. read_u32_at b r.recpos) split ∙ read_u32_at-le32 pre rest r.recpos v at h in
    ground arith

pub read_u64-bytes :
    (r : Reader) (v : ℕ)
    → v < 2 ^ 64
    → r.reclen ≡ 8
    → record_bytes r ≡ le64 v
    → read_u64 r ≡ (r, some v)
unfolding read_u64 record_bytes
read_u64-bytes r v h eight e =
    let (pre, rest, split, at) = bytes_at r.payload r.recpos r.reclen (le64 v) e (omega arith) in
    let value : read_u64_at r.payload r.recpos ≡ v =
      ap (λ b. read_u64_at b r.recpos) split ∙ read_u64_at-le64 pre rest r.recpos v at h in
    ground arith

module _ (w : Writer) (recid : ℕ) (rest : Bytes) (r : Reader) where
  -- A uint32 that is written without an earlier error is the value that ReadU32 returns at its record.
  pub read_u32-add_rec_u32 :
      (v : ℕ)
      → w.error ≡ none
      → recid < 2 ^ 16
      → v < 2 ^ 32
      → let at =
          next_rec (reader_at ((add_rec_u32 w recid v).0.payload ++ rest) (length w.payload) r) in
        (at.0.recid ≡ recid) × (read_u32 at.0 ≡ (at.0, some v))
  unfolding add_rec_u32
  read_u32-add_rec_u32 v fine id_fits h =
      let written : add_u32 [] v ≡ le32 v = add_u32-append [] v in
      let (ok, id_back, len_back, d_back, _) =
        next_rec-add_rec_bytes w recid (le32 v) rest r fine id_fits (omega arith) in
      rw written (id_back, read_u32-bytes _ v h len_back d_back)

  -- A uint64 that is written without an earlier error is the value that ReadU64 returns at its record.
  pub read_u64-add_rec_u64 :
      (v : ℕ)
      → w.error ≡ none
      → recid < 2 ^ 16
      → v < 2 ^ 64
      → let at =
          next_rec (reader_at ((add_rec_u64 w recid v).0.payload ++ rest) (length w.payload) r) in
        (at.0.recid ≡ recid) × (read_u64 at.0 ≡ (at.0, some v))
  unfolding add_rec_u64
  read_u64-add_rec_u64 v fine id_fits h =
      let written : add_u64 [] v ≡ le64 v = add_u64-append [] v in
      let (ok, id_back, len_back, d_back, _) =
        next_rec-add_rec_bytes w recid (le64 v) rest r fine id_fits (omega arith) in
      rw written (id_back, read_u64-bytes _ v h len_back d_back)

  -- A written pair of strings that fits in a record comes back if neither is empty and the first has no
  -- zero byte.
  pub read_string_pair-add_rec_string_pair :
      (x y : Bytes)
      → w.error ≡ none
      → recid < 2 ^ 16
      → length x + 1 + length y < 2 ^ 16
      → All (λ b. b ≢ 0) x
      → 0 < length x
      → 0 < length y
      → let at =
          next_rec (
            reader_at ((add_rec_string_pair w recid x y).0.payload ++ rest) (length w.payload) r) in
        (at.0.recid ≡ recid) × (read_string_pair at.0 ≡ (at.0, some (x, y)))
  unfolding add_rec_string_pair add_rec_bytes read_string_pair
  read_string_pair-add_rec_string_pair x y fine id_fits small no_zero hx hy =
      let pair = (x ++ 0 ∷ []) ++ y in
      let size : length pair ≡ length x + 1 + length y =
        omega (arith, length-append {0} (x ++ 0 ∷ []) y, length-append {0} x (0 ∷ [])) in
      let (ok, id_back, len_back, d_back, _) =
        next_rec-add_rec_bytes w recid pair rest r fine id_fits (omega arith) in
      (id_back, rw (d_back, split_zero-append x y no_zero) (ground arith))
