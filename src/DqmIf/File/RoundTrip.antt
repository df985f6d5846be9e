-- ===== src/DqmIf/File/RoundTrip.antt =====
-- Files that BuildFileData makes and files that ReadFromData accepts.
use dq_lang.DqmIf.Bytes.{
  le16, le32, le64, read_u16_at, read_u32_at, read_u64_at, read_u16_at-le16, read_u32_at-le32,
  read_u64_at-le64, checksum,
}
use dq_lang.DqmIf.File.Checksum.{checksum-lt, checksum_changed}
use dq_lang.DqmIf.File.{
  header_data, build_file_data, read_from_data, accept_payload, magic, header_bytes, version,
}
use dq_lang.DqmIf.Reader.{Reader, fail}
use dq_lang.DqmIf.Writer.{Writer, first_error, payload_checksum}
use dq_lang.Prelude.{
  ℕ, ◌+◌, ◌%◌, ◌^◌, ◌<◌, ◌≡◌, ◌≢◌, refl, sym, ◌∙◌, ap, true, false, none, ◌∷◌, ◌++◌, arith, Bytes,
  length, length-append, take, ltb, ◌==◌, ==_refl, ==_ne, ==_iff, le→ltb,
}

-- The header as a list of its fields.
abbrev fields : ℕ → ℕ → ℕ → Bytes
fields n hash csum =
    magic ++ (le16 header_bytes ++ (le32 version ++ (le32 n ++ (le64 hash ++ le64 csum))))

header_data-fields :
    (p : Bytes) (csum : ℕ) → header_data p csum ≡ fields (length p % 2 ^ 32) (checksum p) csum
unfolding header_data
header_data-fields p csum = refl

-- A file with these fields passes every check of the header up to the two checksums.
read_from_data-fields :
    (r : Reader) (body : Bytes) (hash csum : ℕ)
    → length body < 2 ^ 32
    → hash < 2 ^ 64
    → csum < 2 ^ 64
    → checksum (fields (length body) hash 0) ≡ csum
    → read_from_data r (fields (length body) hash csum ++ body) ≡ accept_payload r body hash
unfolding read_from_data
read_from_data-fields r body hash csum small hash_fits csum_fits sealed =
    let n = length body in
    let d = fields n hash csum ++ body in
    let h6 = magic in
    let h12 = magic ++ (le16 header_bytes ++ le32 version) in
    let size_read : read_u32_at d 12 ≡ n =
      read_u32_at-le32 h12 (le64 hash ++ (le64 csum ++ body)) 12 n refl small in
    let hash_read : read_u64_at d 16 ≡ hash =
      read_u64_at-le64 (h12 ++ le32 n) (le64 csum ++ body) 16 hash refl hash_fits in
    let csum_read : read_u64_at d 24 ≡ csum =
      read_u64_at-le64 (h12 ++ (le32 n ++ le64 hash)) body 24 csum refl csum_fits in
    let head_read : read_u16_at d 6 ≡ header_bytes =
      read_u16_at-le16 magic (le32 version ++ (le32 n ++ (le64 hash ++ (le64 csum ++ body)))) 6
        header_bytes refl (omega arith) in
    let vers_read : read_u32_at d 8 ≡ version =
      read_u32_at-le32 (magic ++ le16 header_bytes) (le32 n ++ (le64 hash ++ (le64 csum ++ body))) 8
        version refl (omega arith) in
    let long : ltb (length d) header_bytes ≡ false = le→ltb (length d) header_bytes (omega arith) in
    let whole : (header_bytes + n == length d) ≡ true =
      (==_iff (header_bytes + n) (length d)).1 (omega arith) in
    rw (long, head_read, vers_read, size_read, whole, hash_read, csum_read, sealed, ==_refl csum)
      refl

-- The reader at the start of a stream.
abbrev pub loaded : Reader → Bytes → Reader
loaded r body = record r { payload = body; pos = 0; recid = 0; reclen = 0; recpos = 0 }

-- With no earlier error and fewer than 2^32 bytes of records BuildFileData succeeds, and ReadFromData
-- accepts the file and stands at the start of the same record stream.
pub read_from_data-build_file_data :
    (w : Writer) (r : Reader)
    → w.error ≡ none
    → length w.payload < 2 ^ 32
    → ((build_file_data w).1 ≡ true)
      × (read_from_data r (build_file_data w).2 ≡ (loaded r w.payload, true))
unfolding build_file_data accept_payload
read_from_data-build_file_data w r fine small =
    let p = w.payload in
    let n : length p % 2 ^ 32 ≡ length p = omega arith in
    let csum = checksum (header_data p 0) in
    let made : header_data p csum ≡ fields (length p) (checksum p) csum =
      header_data-fields p csum ∙ ap (λ k. fields k (checksum p) csum) n in
    let sealed : checksum (fields (length p) (checksum p) 0) ≡ csum =
      ap checksum (ap (λ k. fields k (checksum p) 0) (sym n) ∙ sym (header_data-fields p 0)) in
    let accepted : accept_payload r p (checksum p) ≡ (loaded r p, true) =
      rw (==_refl (checksum p)) in
    rw (fine, le→ltb 4294967295 (length p) (omega arith))
      (
        refl,
        ap (λ h. read_from_data r (h ++ p)) made
            ∙ read_from_data-fields r p (checksum p) csum small (checksum-lt p)
                (checksum-lt (header_data p 0)) sealed
            ∙ accepted,
      )

-- One changed byte of a record stream of fewer than 2^32 bytes is noticed: the file is refused with
-- the payload's checksum as the error.
pub read_from_data_corrupted :
    (xs ys : Bytes) (a b : ℕ) (r : Reader)
    → length (xs ++ a ∷ ys) < 2 ^ 32
    → a < 256
    → b < 256
    → a ≢ b
    → read_from_data r (
        take 32 (build_file_data (record { payload = xs ++ a ∷ ys; error = none })).2
        ++ (xs ++ b ∷ ys))
      ≡ (record r { payload = xs ++ b ∷ ys; error = first_error r.error payload_checksum }, false)
unfolding build_file_data accept_payload fail
read_from_data_corrupted xs ys a b r small ha hb ne =
    let p = xs ++ a ∷ ys in
    let q = xs ++ b ∷ ys in
    let same : length p ≡ length q =
      omega (arith, length-append {0} xs (a ∷ ys), length-append {0} xs (b ∷ ys)) in
    let n : length p % 2 ^ 32 ≡ length q = omega arith in
    let csum = checksum (header_data p 0) in
    let made : header_data p csum ≡ fields (length q) (checksum p) csum =
      header_data-fields p csum ∙ ap (λ k. fields k (checksum p) csum) n in
    let sealed : checksum (fields (length q) (checksum p) 0) ≡ csum =
      ap checksum (ap (λ k. fields k (checksum p) 0) (sym n) ∙ sym (header_data-fields p 0)) in
    let differs : (checksum q == checksum p) ≡ false =
      ==_ne (checksum q) (checksum p) (λ e. checksum_changed xs ys a b ha hb ne (sym e)) in
    rw (le→ltb 4294967295 (length p) (omega arith)) (
      ap (λ h. read_from_data r (take 32 (h ++ p) ++ q)) made
      ∙ read_from_data-fields r q (checksum p) csum (omega arith) (checksum-lt p)
          (checksum-lt (header_data p 0)) sealed
      ∙ rw differs)
