-- ===== src/Tests/Interfaces.antt =====
-- Module interface files: compiler/ast/dqm_if.cpp.
use dq_lang.DqmIf.Bytes.{add_u16, read_u16_at}
use dq_lang.DqmIf.File.RoundTrip.{loaded, read_from_data-build_file_data, read_from_data_corrupted}
use dq_lang.DqmIf.File.{build_file_data, read_from_data}
use dq_lang.DqmIf.Group.{InBounds, next_rec-InBounds, skip_group_total}
use dq_lang.DqmIf.Nested.{Nested, empty, record_first, group_first, skip_group-Nested}
use dq_lang.DqmIf.Reader.{Reader, empty_reader, next_rec, skip_group}
use dq_lang.DqmIf.Records.{reader_at}
use dq_lang.DqmIf.Stream.{Rec, write_all, read_all, read_all-write_all}
use dq_lang.DqmIf.Writer.{Writer, payload_checksum, add_rec_bytes, pad}
use dq_lang.Prelude.{
  ◌≡◌, ◌≢◌, refl, true, false, none, some, List, [], ◌∷◌, ◌++◌, arith, length, take, codes,
}

abbrev writer : Writer
writer = record { payload = []; error = none }

-- A group 7 … 8 with a nested one, and a record behind it.
abbrev group : List Rec
group = (1, codes "ab") ∷ (7, []) ∷ (8, []) ∷ (8, []) ∷ []

abbrev opened : Reader
opened = record empty_reader { recid = 7 }

abbrev started : Writer
started = (add_rec_bytes writer 7 []).0

payload-write_all :
    (write_all writer ((258, codes "abc") ∷ [])).payload ≡ 2 ∷ 1 ∷ 3 ∷ 0 ∷ 97 ∷ 98 ∷ 99 ∷ 0 ∷ []
unfolding write_all add_rec_bytes pad add_u16
payload-write_all = refl

read_from_data-build_file_data_example :
    let w = (add_rec_bytes writer 7 (codes "abc")).0 in
    ((build_file_data w).1 ≡ true)
    × (read_from_data empty_reader (build_file_data w).2 ≡ (loaded empty_reader w.payload, true))
unfolding add_rec_bytes pad add_u16
read_from_data-build_file_data_example =
    read_from_data-build_file_data (add_rec_bytes writer 7 (codes "abc")).0 empty_reader refl
      (omega arith)

read_from_data_corrupted_example :
    read_from_data empty_reader (
      take 32 (build_file_data (record { payload = 5 ∷ 6 ∷ 7 ∷ []; error = none })).2
      ++ (5 ∷ 9 ∷ 7 ∷ []))
    ≡ (record empty_reader { payload = 5 ∷ 9 ∷ 7 ∷ []; error = some payload_checksum }, false)
read_from_data_corrupted_example =
    read_from_data_corrupted (5 ∷ []) (7 ∷ []) 6 9 empty_reader (omega arith) (omega arith)
      (omega arith) (omega arith)

read_all-write_all_example :
    read_all 5 (reader_at (write_all started group).payload 4 empty_reader) ≡ some group
unfolding add_rec_bytes pad add_u16
read_all-write_all_example = read_all-write_all group started empty_reader refl (ground arith)

abbrev two_records : Reader
two_records = record empty_reader { payload = 7 ∷ 0 ∷ 1 ∷ 0 ∷ 97 ∷ 0 ∷ 0 ∷ 0 ∷ 8 ∷ 0 ∷ [] }

next_rec-InBounds_example : InBounds two_records (next_rec two_records).0
unfolding read_u16_at
next_rec-InBounds_example = next_rec-InBounds two_records (unfold next_rec in refl)

abbrev cut_off : Reader
cut_off = record two_records { pos = 8 }

skip_group_total_example : skip_group cut_off 0 1 ≢ none
skip_group_total_example = skip_group_total cut_off 0 1

abbrev inside : List Rec
inside = (1, codes "ab") ∷ (7, []) ∷ (8, []) ∷ []

abbrev inside-Nested : Nested 7 8 inside
inside-Nested =
    record_first 1 (codes "ab") ((7, []) ∷ (8, []) ∷ []) (omega arith) (omega arith)
      (group_first [] [] [] [] (empty refl) (empty refl) refl) refl

skip_group-Nested_example :
    let written = (write_all started (inside ++ (8, []) ∷ [])).payload in
    (q : Reader) × (skip_group (reader_at (written ++ 9 ∷ []) (length started.payload) opened) 7 8
      ≡ some (q, true))
    × (q.pos ≡ length written)
    × (q.payload ≡ written ++ 9 ∷ [])
unfolding add_rec_bytes
skip_group-Nested_example =
    skip_group-Nested inside [] 7 8 started (9 ∷ []) opened refl (ground arith) refl (omega arith)
      inside-Nested
