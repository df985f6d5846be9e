-- ===== src/DqmIf/Writer.antt =====
-- ODqmIfWriter: the record stream under construction, with the first error kept.
use dq_lang.DqmIf.Bytes.{u8, add_u16, add_u32, add_u64}
use dq_lang.Prelude.{
  ℕ, zero, suc, ◌%◌, ◌^◌, Bool, true, false, not, ◌&&◌, Option, none, some, [], ◌∷◌, ◌++◌, Bytes,
  length, take, ltb, ◌==◌, if◌then◌else◌,
}

-- The messages of Fail, without their wording.
pub data DqmError : Type 0 where
  too_large : ℕ → ℕ → DqmError
  null_payload : ℕ → DqmError
  empty_type_spec : DqmError
  payload_too_large : ℕ → DqmError
  file_too_small : DqmError
  bad_magic : DqmError
  bad_header_size : ℕ → DqmError
  bad_version : ℕ → DqmError
  size_mismatch : ℕ → ℕ → DqmError
  header_checksum : DqmError
  payload_checksum : DqmError
  unexpected_end : DqmError
  truncated_header : DqmError
  truncated_record : ℕ → DqmError
  truncated_padding : ℕ → DqmError
  unexpected_record : ℕ → ℕ → DqmError
  not_empty : ℕ → DqmError
  no_separator : ℕ → DqmError
  empty_item : ℕ → DqmError
  wrong_width : ℕ → ℕ → DqmError
  nil_type_spec : DqmError
  array_too_large : ℕ → DqmError
  unknown_type : Bytes → DqmError
  bad_array_length : DqmError
  bad_autofree : DqmError
  no_type_spec : DqmError
  unexpected_type_record : ℕ → DqmError
  bad_align : DqmError

pub record Writer : Type 0 where
  pub payload : Bytes
  pub error : Option DqmError

-- error.empty()
abbrev pub is_none {ℓ} : {A : Type ℓ} → Option A → Bool
is_none none = true
is_none (some a) = false

-- Fail keeps the error that came first.
abbrev pub first_error : Option DqmError → DqmError → Option DqmError
first_error none e = some e
first_error (some d) e = some d

unfoldable pub fail : Writer → DqmError → Writer × Bool
fail w e = (record w { error = first_error w.error e }, false)

-- while (payload.size() & 3) payload.push_back(0): three rounds are enough.
unfoldable pub pad_loop : ℕ → Bytes → Bytes
pad_loop zero p = p
pad_loop (suc f) p = let rest = pad_loop f (p ++ 0 ∷ []) in if length p % 4 == 0 then p else rest

unfoldable pub pad : Bytes → Bytes
unfolding pad_loop
pad p = pad_loop 3 p

-- The bytes src[0] to src[len - 1].
abbrev pub copied : Option Bytes → ℕ → Bytes
copied none len = []
copied (some d) len = take len d

-- The data is a pointer, null or to bytes, with a length of its own.
unfoldable pub add_rec : Writer → ℕ → Option Bytes → ℕ → Writer × Bool
unfolding fail
add_rec w recid src len =
    if not (is_none w.error)
    then (w, false)
    else if ltb 65535 len
    then fail w (too_large recid len)
    else if not (len == 0) && is_none src
    then fail w (null_payload recid)
    else (
      record w {
        payload = pad (add_u16 (add_u16 w.payload recid) (len % 2 ^ 16) ++ copied src len);
      },
      true,
    )

unfoldable pub add_rec_bytes : Writer → ℕ → Bytes → Writer × Bool
unfolding add_rec
add_rec_bytes w recid d = add_rec w recid (some d) (length d)

unfoldable pub add_rec_str : Writer → ℕ → Bytes → Writer × Bool
unfolding add_rec
add_rec_str w recid value = add_rec w recid (some value) (length value)

-- The two strings with a zero byte between them.
unfoldable pub add_rec_string_pair : Writer → ℕ → Bytes → Bytes → Writer × Bool
unfolding add_rec
add_rec_string_pair w recid first second =
    let pair = (first ++ 0 ∷ []) ++ second in add_rec w recid (some pair) (length pair)

unfoldable pub add_rec_empty : Writer → ℕ → Writer × Bool
unfolding add_rec
add_rec_empty w recid = add_rec w recid none 0

unfoldable pub add_rec_u8 : Writer → ℕ → ℕ → Writer × Bool
unfolding add_rec
add_rec_u8 w recid value = add_rec w recid (some (u8 value ∷ [])) 1

unfoldable pub add_rec_u32 : Writer → ℕ → ℕ → Writer × Bool
unfolding add_rec_bytes add_u32
add_rec_u32 w recid value = add_rec_bytes w recid (add_u32 [] value)

-- An int32_t or int64_t stands as its bit pattern, so the cast to unsigned is the identity.
unfoldable pub add_rec_i32 : Writer → ℕ → ℕ → Writer × Bool
unfolding add_rec_u32
add_rec_i32 w recid value = add_rec_u32 w recid value

unfoldable pub add_rec_u64 : Writer → ℕ → ℕ → Writer × Bool
unfolding add_rec_bytes add_u64
add_rec_u64 w recid value = add_rec_bytes w recid (add_u64 [] value)

unfoldable pub add_rec_i64 : Writer → ℕ → ℕ → Writer × Bool
unfolding add_rec_u64
add_rec_i64 w recid value = add_rec_u64 w recid value

unfoldable pub add_type_spec_rec : Writer → ℕ → Bytes → Writer × Bool
unfolding fail add_rec_str
add_type_spec_rec w recid name =
    if length name == 0 then fail w empty_type_spec else add_rec_str w recid name
