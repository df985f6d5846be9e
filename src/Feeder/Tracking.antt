-- ===== src/Feeder/Tracking.antt =====
-- The line and the column that the reader keeps are those that counting from the start of the file
-- gives.
use dq_lang.Feeder.State.{
  Feeder, Cursor, newline, advance, unread, cursor, place, move_to, recalc_loop, file_start, locate,
  recalc_line_col,
}
use dq_lang.Prelude.{
  ℕ, ◌+◌, ◌-◌, ◌≤◌, ◌≡◌, ◌≢◌, refl, sym, ◌∙◌, ap, [], ◌∷◌, ◌++◌, append_assoc, arith, Bytes, length,
  length-append, length-take, take, drop, take-append-drop, take-append, All, le→ltb,
}

pub record Tracks (f : Feeder) : Type 0 where
  pub inside : f.curp ≤ length f.file.body
  pub at : cursor f ≡ locate f.file.body f.curp
  pub column : f.curcol ≡ f.curp + 1 - f.clstart

-- A loop went over the first bytes in front of it, and no further.
pub record Passes (text : Bytes) (k k' : Cursor) : Type 0 where
  pub over : Bytes
  pub left : Bytes
  pub splits : text ≡ over ++ left
  pub ends : k' ≡ recalc_loop over k

pub recalc_loop-append :
    (xs ys : Bytes) (k : Cursor) → recalc_loop (xs ++ ys) k ≡ recalc_loop ys (recalc_loop xs k)
unfolding recalc_loop
recalc_loop-append [] ys k = refl
recalc_loop-append (x ∷ xs) ys k = recalc_loop-append xs ys (advance x k)

recalc_loop-p : (xs : Bytes) (k : Cursor) → (recalc_loop xs k).p ≡ k.p + length xs
unfolding recalc_loop
recalc_loop-p [] k = omega arith
recalc_loop-p (x ∷ xs) k = omega (arith, recalc_loop-p xs (advance x k))

-- The bytes up to a place n behind the cursor.
take_further :
    (p : ℕ) (xs ys body : Bytes)
    → p ≤ length body
    → drop p body ≡ xs ++ ys
    → (take (p + length xs) body ≡ take p body ++ xs) × (p + length xs ≤ length body)
take_further p xs ys body h e =
    let whole : body ≡ (take p body ++ xs) ++ ys =
      sym (take-append-drop p body)
      ∙ ap (λ b. take p body ++ b) e
      ∙ sym (append_assoc (take p body) xs ys) in
    let size : p + length xs ≡ length (take p body ++ xs) =
      omega (arith, length-append {0} (take p body) xs, length-take p body h) in
    (
      ap (λ n. take n body) size
          ∙ ap (take (length (take p body ++ xs))) whole
          ∙ take-append (take p body ++ xs) ys,
      omega (arith, ap length whole, length-append {0} (take p body ++ xs) ys),
    )

-- A loop that passes over bytes keeps the tracking.
pub place-Tracks :
    (f : Feeder) (k : Cursor) → Tracks f → Passes (unread f) (cursor f) k → Tracks (place f k)
unfolding locate
place-Tracks f k t s =
    let body = f.file.body in
    let moved : k.p ≡ f.curp + length s.over =
      ap (λ (c : Cursor). c.p) s.ends ∙ recalc_loop-p s.over (cursor f) in
    let (further, fits) = take_further f.curp s.over s.left body t.inside s.splits in
    record {
      inside = omega arith;
      at =
          s.ends
          ∙ ap (recalc_loop s.over) t.at
          ∙ sym (recalc_loop-append (take f.curp body) s.over file_start)
          ∙ ap (λ b. recalc_loop b file_start) (sym further)
          ∙ ap (locate body) (sym moved);
      column = refl;
    }

-- Bytes that hold no line end only move the place.
pub recalc_loop_same_line :
    (xs : Bytes) (k : Cursor)
    → All (λ c. c ≢ newline) xs
    → recalc_loop xs k ≡ record k { p = k.p + length xs }
unfolding recalc_loop
recalc_loop_same_line [] k h = ground arith
recalc_loop_same_line (x ∷ xs) k (hx, h) =
    ground (arith, recalc_loop_same_line xs (record k { p = k.p + 1 }) h)

-- Moving over a token on the same line keeps the tracking.
pub move_to-Tracks :
    (f : Feeder) (over left : Bytes)
    → Tracks f
    → unread f ≡ over ++ left
    → All (λ c. c ≢ newline) over
    → Tracks (move_to f (f.curp + length over))
move_to-Tracks f over left t split h =
    place-Tracks f (record (cursor f) { p = f.curp + length over }) t
      (record {
        over = over;
        left = left;
        splits = split;
        ends = sym (recalc_loop_same_line over (cursor f) h);
      })

-- What Tracks says of a feeder depends on its place alone.
pub Tracks-same_place :
    (f g : Feeder)
    → g.file ≡ f.file
    → cursor g ≡ cursor f
    → g.curcol ≡ f.curcol
    → Tracks f
    → Tracks g
Tracks-same_place f g file place col t = record {
  inside = ground arith;
  at = ground arith;
  column = ground arith;
}

-- The position that is kept is the one that RecalcLineCol would compute.
pub recalc_line_col-Tracks :
    (f : Feeder)
    → Tracks f
    → recalc_line_col f.file f.curp
      ≡ record { scfile = f.file; pos = f.curp; line = f.curline; col = f.curcol }
unfolding recalc_line_col
recalc_line_col-Tracks f t = rw (le→ltb (length f.file.body) f.curp t.inside, ← t.at) (ground arith)
