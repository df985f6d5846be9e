-- ===== src/DqmIf/Reader.antt =====
-- ODqmIfReader: the cursor over a record stream.
use dq_lang.DqmIf.Bytes.{read_u16_at, read_u32_at, read_u64_at}
use dq_lang.DqmIf.Writer.{
  DqmError, unexpected_end, truncated_header, truncated_record, truncated_padding,
  unexpected_record, not_empty, no_separator, empty_item, wrong_width, is_none, first_error,
}
use dq_lang.Prelude.{
  ℕ, zero, suc, ◌+◌, ◌-◌, ◌%◌, Bool, true, false, not, ◌||◌, Option, none, some, [], ◌∷◌, Bytes,
  length, get_or, take, drop, ltb, leb, ◌==◌, if◌then◌else◌,
}

pub record Reader : Type 0 where
  pub payload : Bytes
  pub error : Option DqmError
  pub pos : ℕ
  pub recid : ℕ
  pub reclen : ℕ
  pub recpos : ℕ

-- A reader before ReadFromData.
abbrev pub empty_reader : Reader
empty_reader = record { payload = []; error = none; pos = 0; recid = 0; reclen = 0; recpos = 0 }

unfoldable pub fail : Reader → DqmError → Reader × Bool
fail r e = (record r { error = first_error r.error e }, false)

unfoldable pub eof : Reader → Bool
eof r = leb (length r.payload) r.pos

-- while (nextpos & 3) ++nextpos: three rounds are enough.
unfoldable pub align_loop : ℕ → ℕ → ℕ
align_loop zero n = n
align_loop (suc f) n = let rest = align_loop f (n + 1) in if n % 4 == 0 then n else rest

unfoldable pub align : ℕ → ℕ
unfolding align_loop
align n = align_loop 3 n

-- NextRec behind the reading of the record's header: recid, reclen and recpos are set.
unfoldable pub enter_rec : Reader → Reader × Bool
unfolding fail align
enter_rec r =
    let nextpos = r.recpos + r.reclen in
    if ltb (length r.payload) nextpos
    then fail r (truncated_record r.recid)
    else if ltb (length r.payload) (align nextpos)
    then fail r (truncated_padding r.recid)
    else (record r { pos = align nextpos }, true)

unfoldable pub next_rec : Reader → Reader × Bool
unfolding fail eof enter_rec
next_rec r =
    if not (is_none r.error)
    then (r, false)
    else if eof r
    then fail r unexpected_end
    else if ltb (length r.payload) (r.pos + 4)
    then fail r truncated_header
    else enter_rec (record r {
      recid = read_u16_at r.payload r.pos;
      reclen = read_u16_at r.payload (r.pos + 2);
      recpos = r.pos + 4;
    })

unfoldable pub expect_empty : Reader → ℕ → Reader × Bool
unfolding fail
expect_empty r recid =
    if not (r.recid == recid)
    then fail r (unexpected_record recid r.recid)
    else if not (r.reclen == 0)
    then fail r (not_empty r.recid)
    else (r, true)

-- A read gives the new reader and, if it returns true, the value.
abbrev pub Read : Type 0 → Type 0
Read A = Reader × Option A

abbrev refuse : {A : Type 0} → Reader → DqmError → Read A
refuse r e = (record r { error = first_error r.error e }, none)

-- The bytes of the current record.
unfoldable pub record_bytes : Reader → Bytes
record_bytes r = take r.reclen (drop r.recpos r.payload)

unfoldable pub read_string : Reader → Read Bytes
unfolding record_bytes
read_string r = (r, some (record_bytes r))

unfoldable pub read_blob : Reader → Read Bytes
unfolding record_bytes
read_blob r = (r, some (record_bytes r))

-- memchr(begin, 0, n): what stands before and behind the first zero byte.
unfoldable pub split_zero : Bytes → Option (Bytes × Bytes)
split_zero [] = none
split_zero (b ∷ d) = elim (b == 0) [
  | true ↦ some ([], d)
  | false ↦ elim (split_zero d) [ none ↦ none | some (x, y) ↦ some (b ∷ x, y) ]
]

-- ReadStringPair behind memchr.
unfoldable pub pair_items : Reader → Option (Bytes × Bytes) → Read (Bytes × Bytes)
pair_items r none = refuse r (no_separator r.recid)
pair_items r (some (x, y)) =
    if length x == 0 || length y == 0 then refuse r (empty_item r.recid) else (r, some (x, y))

unfoldable pub read_string_pair : Reader → Read (Bytes × Bytes)
unfolding pair_items split_zero record_bytes
read_string_pair r = pair_items r (split_zero (record_bytes r))

unfoldable pub read_u8 : Reader → Read ℕ
read_u8 r =
    if not (r.reclen == 1)
    then refuse r (wrong_width r.recid 1)
    else (r, some (get_or r.payload r.recpos 0))

unfoldable pub read_u32 : Reader → Read ℕ
read_u32 r =
    if not (r.reclen == 4)
    then refuse r (wrong_width r.recid 4)
    else (r, some (read_u32_at r.payload r.recpos))

-- A signed value stands as its bit pattern.
unfoldable pub read_i32 : Reader → Read ℕ
unfolding read_u32
read_i32 r = read_u32 r

unfoldable pub read_u64 : Reader → Read ℕ
read_u64 r =
    if not (r.reclen == 8)
    then refuse r (wrong_width r.recid 8)
    else (r, some (read_u64_at r.payload r.recpos))

unfoldable pub read_i64 : Reader → Read ℕ
unfolding read_u64
read_i64 r = read_u64 r

-- while (depth > 0) with fuel; `none` means that the fuel ran out. The depth after a record:
abbrev pub depth_after : ℕ → ℕ → ℕ → ℕ → ℕ
depth_after begin_id end_id id depth =
    if id == begin_id then depth + 1 else if id == end_id then depth - 1 else depth

unfoldable pub skip_loop : ℕ → ℕ → ℕ → ℕ → Reader → Option (Reader × Bool)
skip_loop zero begin_id end_id depth r = none
skip_loop (suc f) begin_id end_id depth r = elim (depth == 0) [
  | true ↦ some (r, true)
  | false ↦ elim (next_rec r).1 [
    | false ↦ some ((next_rec r).0, false)
    | true ↦
        skip_loop f begin_id end_id (depth_after begin_id end_id (next_rec r).0.recid depth)
          (next_rec r).0
  ]
]

unfoldable pub skip_group : Reader → ℕ → ℕ → Option (Reader × Bool)
unfolding fail skip_loop next_rec
skip_group r begin_id end_id =
    if not (r.recid == begin_id)
    then some (fail r (unexpected_record begin_id r.recid))
    else skip_loop (length r.payload + 2) begin_id end_id 1 r
