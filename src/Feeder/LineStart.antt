-- ===== src/Feeder/LineStart.antt =====
-- SearchClStart against the line start that counting from the start of the file gives.
use dq_lang.Feeder.State.{newline, is_eol, advance, recalc_loop, file_start, locate, search_cl_loop}
use dq_lang.Feeder.Tracking.{recalc_loop-append}
use dq_lang.Prelude.{
  ℕ, zero, suc, ◌+◌, ◌≤◌, ◌<◌, ◌≡◌, ◌≢◌, refl, ◌∙◌, ap, [], ◌∷◌, ◌++◌, false, arith, Bytes, length,
  get_or, take, All, ==_ne,
}

take-suc :
    (p : ℕ) (body : Bytes)
    → p < length body
    → take (suc p) body ≡ take p body ++ get_or body p 0 ∷ []
take-suc zero [] h = absurd (omega arith)
take-suc zero (c ∷ cs) h = refl
take-suc (suc p) [] h = absurd (omega arith)
take-suc (suc p) (c ∷ cs) h = ap (◌∷◌ c) (take-suc p cs (omega arith))

-- One byte further is one more round of the loop.
locate-suc :
    (p : ℕ) (body : Bytes)
    → p < length body
    → locate body (suc p) ≡ advance (get_or body p 0) (locate body p)
unfolding locate recalc_loop
locate-suc p body h =
    ap (λ b. recalc_loop b file_start) (take-suc p body h)
    ∙ recalc_loop-append (take p body) (get_or body p 0 ∷ []) file_start

locate-p : (p : ℕ) (body : Bytes) → p ≤ length body → (locate body p).p ≡ p
locate-p zero body h = unfold locate recalc_loop in refl
locate-p (suc p) body h =
    rw (locate-suc p body (omega arith)) (omega (arith, locate-p p body (omega arith)))

get_or-All :
    (body : Bytes) (p : ℕ) → All (λ c. c ≢ 13) body → p < length body → get_or body p 0 ≢ 13
get_or-All [] p h small = absurd (omega arith)
get_or-All (c ∷ cs) zero (hc, h) small = hc
get_or-All (c ∷ cs) (suc p) (hc, h) small = get_or-All cs p h (omega arith)

-- In a file with no carriage return whose first line is not empty, the search from a byte gives the
-- start of the line that the place behind that byte is on.
pub search_cl_loop-locate :
    (body : Bytes) (p : ℕ)
    → All (λ c. c ≢ 13) body
    → get_or body 0 0 ≢ newline
    → p < length body
    → search_cl_loop body p ≡ (locate body (suc p)).line_start
unfolding search_cl_loop
search_cl_loop-locate body zero unix first h =
    rw (locate-suc 0 body h, ==_ne (get_or body 0 0) newline first)
      (unfold locate recalc_loop in refl)
search_cl_loop-locate body (suc p) unix first h =
    let before = search_cl_loop-locate body p unix first (omega arith) in
    let here = locate-p (suc p) body (omega arith) in
    rw
      (locate-suc (suc p) body h, ==_ne (get_or body (suc p) 0) 13 (get_or-All body (suc p) unix h))
      (ground arith)

-- In a file with no carriage return whose first line is not empty, the search from a byte that is no
-- line end gives the start of the line that this byte is on.
pub search_cl_loop_line :
    (body : Bytes) (p : ℕ)
    → All (λ c. c ≢ 13) body
    → get_or body 0 0 ≢ newline
    → p < length body
    → get_or body p 0 ≢ newline
    → search_cl_loop body p ≡ (locate body p).line_start
search_cl_loop_line body p unix first h inside =
    search_cl_loop-locate body p unix first h
    ∙ rw (locate-suc p body h, ==_ne (get_or body p 0) newline inside) refl

module _ (rest : Bytes) where
  plain_at :
      (xs : Bytes) (p : ℕ)
      → All (λ c. (c ≢ 13) × (c ≢ newline)) xs
      → p < length xs
      → is_eol (get_or (xs ++ rest) p 0) ≡ false
  plain_at [] p h small = absurd (omega arith)
  plain_at (c ∷ cs) zero (hc, h) small = ground arith
  plain_at (c ∷ cs) (suc p) (hc, h) small = plain_at cs p h (omega arith)

  plain_length : (xs : Bytes) → length xs ≤ length (xs ++ rest)
  plain_length [] = omega arith
  plain_length (c ∷ cs) = omega (arith, plain_length cs)

  search_cl_loop_plain :
      (xs : Bytes) (p : ℕ)
      → All (λ c. (c ≢ 13) × (c ≢ newline)) xs
      → p ≤ length xs
      → search_cl_loop (newline ∷ (xs ++ rest)) p ≡ 0
  unfolding search_cl_loop
  search_cl_loop_plain xs zero h small = refl
  search_cl_loop_plain xs (suc p) h small =
      rw (plain_at xs p h small) (search_cl_loop_plain xs p h (omega arith))

  locate_plain :
      (xs : Bytes) (p : ℕ)
      → All (λ c. (c ≢ 13) × (c ≢ newline)) xs
      → p ≤ length xs
      → (locate (newline ∷ (xs ++ rest)) (suc p)).line_start ≡ 1
  locate_plain xs zero h small = unfold locate recalc_loop in refl
  locate_plain xs (suc p) h small =
      let eol = plain_at xs p h small in
      rw (locate-suc (suc p) (newline ∷ (xs ++ rest)) (omega (arith, plain_length xs)))
        (ground (arith, locate_plain xs p h (omega arith)))

-- The byte at pstart is not looked at: in a file that starts with a line end, the search from a place
-- on the second line, which starts at 1, gives 0.
pub search_cl_loop_empty_line :
    (xs rest : Bytes) (p : ℕ)
    → All (λ c. (c ≢ 13) × (c ≢ newline)) xs
    → suc p ≤ length xs
    → (search_cl_loop (newline ∷ (xs ++ rest)) (suc p) ≡ 0)
      × ((locate (newline ∷ (xs ++ rest)) (suc p)).line_start ≡ 1)
search_cl_loop_empty_line xs rest p h small =
    (search_cl_loop_plain rest xs (suc p) h small, locate_plain rest xs p h (omega arith))

locate-line_start-le : (p : ℕ) (body : Bytes) → p ≤ length body → (locate body p).line_start ≤ p
locate-line_start-le zero body h = unfold locate recalc_loop in omega arith
locate-line_start-le (suc p) body h =
    rw (locate-suc p body (omega arith))
      (ground (arith, locate-line_start-le p body (omega arith), locate-p p body (omega arith)))

-- From a newline that is not at the start of the file, the search gives the place behind it, and the
-- line that the newline ends starts at or before it.
pub search_cl_loop_at_eol :
    (body : Bytes) (p : ℕ)
    → 0 < p
    → p < length body
    → get_or body p 0 ≡ newline
    → (search_cl_loop body p ≡ p + 1) × ((locate body p).line_start ≤ p)
unfolding search_cl_loop
search_cl_loop_at_eol body zero pos h e = absurd (omega arith)
search_cl_loop_at_eol body (suc p) pos h e =
    (ground arith, locate-line_start-le (suc p) body (omega arith))
