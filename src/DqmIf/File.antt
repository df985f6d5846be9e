-- ===== src/DqmIf/File.antt =====
-- BuildFileData of the writer and ReadFromData of the reader: the 32-byte header, with a checksum
-- of the record stream and one of the header itself.
pub mod Checksum
pub mod RoundTrip
use dq_lang.DqmIf.Bytes.{
  add_u8, add_u16, add_u32, add_u64, read_u16_at, read_u32_at, read_u64_at, checksum,
}
use dq_lang.DqmIf.Reader.{Reader, fail}
use dq_lang.DqmIf.Writer.{
  Writer, payload_too_large, file_too_small, bad_magic, bad_header_size, bad_version, size_mismatch,
  header_checksum, payload_checksum, is_none,
}
use dq_lang.DqmIf.Writer
use dq_lang.Prelude.{
  ℕ, zero, suc, ◌+◌, ◌-◌, ◌*◌, ◌%◌, ◌^◌, Bool, true, false, not, ◌&&◌, ◌||◌, [], ◌∷◌, ◌++◌, Bytes,
  length, take, drop, set, ltb, ◌==◌, if◌then◌else◌,
}

-- "DQMIF\0"
abbrev pub magic : Bytes
magic = 68 ∷ 81 ∷ 77 ∷ 73 ∷ 70 ∷ 0 ∷ []

abbrev pub header_bytes : ℕ
header_bytes = 32

-- DQMIF_VERSION and DQMIF_MIN_VERSION: (1 << 16) | 25
abbrev pub version : ℕ
version = 65561

abbrev pub min_version : ℕ
min_version = 65561

-- for (char c : header.magic) AddU8(hdata, uint8_t(c))
unfoldable pub add_all_u8 : Bytes → Bytes → Bytes
unfolding add_u8
add_all_u8 dst [] = dst
add_all_u8 dst (c ∷ cs) = add_all_u8 (add_u8 dst c) cs

-- The header with the given checksum field.
unfoldable pub header_data : Bytes → ℕ → Bytes
unfolding add_all_u8 add_u16 add_u32 add_u64
header_data payload csum =
    let h6 = add_all_u8 [] magic in
    let h8 = add_u16 h6 header_bytes in
    let h12 = add_u32 h8 version in
    let h16 = add_u32 h12 (length payload % 2 ^ 32) in
    let h24 = add_u64 h16 (checksum payload) in add_u64 h24 csum

-- The file's bytes; they are cleared first, so a failure leaves none.
unfoldable pub build_file_data : Writer → Writer × Bool × Bytes
unfolding header_data Writer.fail
build_file_data w =
    if not (is_none w.error)
    then (w, false, [])
    else if ltb 4294967295 (length w.payload)
    then ((Writer.fail w (payload_too_large (length w.payload))).0, false, [])
    else (w, true, header_data w.payload (checksum (header_data w.payload 0)) ++ w.payload)

-- memcmp(...) == 0
unfoldable pub same_bytes : Bytes → Bytes → Bool
same_bytes [] [] = true
same_bytes (x ∷ xs) (y ∷ ys) = x == y && same_bytes xs ys
same_bytes _ _ = false

-- for (i = 24; i < 32; ++i) header[i] = 0, by the rounds left.
unfoldable pub clear_loop : ℕ → ℕ → Bytes → Bytes
clear_loop zero i h = h
clear_loop (suc n) i h = clear_loop n (i + 1) (set h i 0)

-- ReadFromData behind the checks of the header.
unfoldable pub accept_payload : Reader → Bytes → ℕ → Reader × Bool
unfolding fail
accept_payload r body hash =
    let r' = record r { payload = body } in
    if not (checksum body == hash)
    then fail r' payload_checksum
    else (record r' { pos = 0; recid = 0; reclen = 0; recpos = 0 }, true)

unfoldable pub read_from_data : Reader → Bytes → Reader × Bool
unfolding fail same_bytes clear_loop accept_payload
read_from_data r d =
    let header_size = read_u16_at d 6 in
    let vers = read_u32_at d 8 in
    let payload_size = read_u32_at d 12 in
    if ltb (length d) header_bytes
    then fail r file_too_small
    else if not (same_bytes (take 6 d) magic)
    then fail r bad_magic
    else if not (header_size == header_bytes)
    then fail r (bad_header_size header_size)
    else if ltb vers min_version || ltb version vers
    then fail r (bad_version vers)
    else if not (header_size + payload_size == length d)
    then fail r (size_mismatch payload_size (length d - header_size))
    else if not (checksum (clear_loop 8 24 (take header_size d)) == read_u64_at d 24)
    then fail r header_checksum
    else accept_payload r (drop header_size d) (read_u64_at d 16)
