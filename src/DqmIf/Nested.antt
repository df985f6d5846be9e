-- ===== src/DqmIf/Nested.antt =====
-- SkipGroup over well-nested groups, described by their structure.
use dq_lang.DqmIf.Group.{Closes, skip_group-Closes}
use dq_lang.DqmIf.Reader.{Reader, depth_after, skip_group}
use dq_lang.DqmIf.Records.{reader_at}
use dq_lang.DqmIf.Stream.{Rec, Fits, write_all}
use dq_lang.DqmIf.Writer.{Writer}
use dq_lang.Prelude.{
  ℕ, ◌+◌, ◌≡◌, ◌≢◌, true, some, none, List, [], ◌∷◌, ◌++◌, append_assoc, arith, Bytes, length, All,
}

-- The records inside a group: other records, and whole groups of the same kind.
pub data Nested (begin_id end_id : ℕ) : List Rec → Type 0 where
  empty : {rs : List Rec} → rs ≡ [] → Nested begin_id end_id rs
  record_first :
      {rs : List Rec} (recid : ℕ) (d : Bytes) (later : List Rec)
      → recid ≢ begin_id
      → recid ≢ end_id
      → Nested begin_id end_id later
      → rs ≡ (recid, d) ∷ later
      → Nested begin_id end_id rs
  group_first :
      {rs : List Rec} (d d' : Bytes) (inner later : List Rec)
      → Nested begin_id end_id inner
      → Nested begin_id end_id later
      → rs ≡ (begin_id, d) ∷ (inner ++ (end_id, d') ∷ later)
      → Nested begin_id end_id rs

-- Such records leave the depth as it is.
Closes-append :
    (b e depth : ℕ) (rs tail : List Rec)
    → b ≢ e
    → depth ≢ 0
    → Nested b e rs
    → Closes b e depth tail
    → Closes b e depth (rs ++ tail)
Closes-append b e depth rs tail apart pos (empty eq) c = rw eq c
Closes-append b e depth rs tail apart pos (record_first recid d later nb ne n eq) c =
    let same : depth_after b e recid depth ≡ depth = ground arith in
    rw (eq, same) (pos, Closes-append b e depth later tail apart pos n c)
Closes-append b e depth rs tail apart pos (group_first d d' inner later n n' eq) c =
    let opened : depth_after b e b depth ≡ depth + 1 = ground arith in
    let closed : depth_after b e e (depth + 1) ≡ depth = ground arith in
    let more = Closes-append b e depth later tail apart pos n' c in
    rw (eq, opened, append_assoc inner ((e, d') ∷ later) tail)
      (
        pos,
        Closes-append b e (depth + 1) inner ((e, d') ∷ (later ++ tail)) apart (omega arith) n
            (omega arith, rw closed more),
      )

-- At the record that opens a group, SkipGroup moves over the written records inside, with whole groups
-- of the same kind among them, to the place behind the record that closes the group.
pub skip_group-Nested :
    (rs : List Rec) (d : Bytes) (begin_id end_id : ℕ) (w : Writer) (rest : Bytes) (r : Reader)
    → w.error ≡ none
    → All Fits (rs ++ (end_id, d) ∷ [])
    → r.recid ≡ begin_id
    → begin_id ≢ end_id
    → Nested begin_id end_id rs
    → let written = (write_all w (rs ++ (end_id, d) ∷ [])).payload in
      (q : Reader) × (skip_group (reader_at (written ++ rest) (length w.payload) r) begin_id end_id
        ≡ some (q, true))
      × (q.pos ≡ length written)
      × (q.payload ≡ written ++ rest)
skip_group-Nested rs d begin_id end_id w rest r fine fits here apart n =
    let closed : depth_after begin_id end_id end_id 1 ≡ 0 = ground arith in
    skip_group-Closes (rs ++ (end_id, d) ∷ []) begin_id end_id w rest r fine fits here (
      Closes-append begin_id end_id 1 rs ((end_id, d) ∷ []) apart (omega arith) n
        (omega arith, closed))
