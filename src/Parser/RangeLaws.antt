-- ===== src/Parser/RangeLaws.antt =====
-- Two comparisons behind each other are a range where both go the same way.
use dq_lang.Feeder.State.{Feeder, unread}
use dq_lang.Parser.Levels.{Front, any_symbol, parse_expr_add, Parsed}
use dq_lang.Parser.Print.{Cmp, cmp_text, Tree, size, Fits, print, eq, ne, lt, le, gt, ge}
use dq_lang.Parser.Steps.{any_symbol-miss}
use dq_lang.Parser.Lexing.{Lexes, Sees, cmp_solid}
use dq_lang.Parser.LevelLaws.{tree_value}
use dq_lang.Parser.RoundTrip.{parse_expr_add-Ends}
use dq_lang.Parser.Comparison.{
  Compares, CompareOp, parse_compare_op, ambiguous, range_first, parse_range, after_right,
  after_left, after_compare_op, parse_comparison, or_null,
}
use dq_lang.Parser.CompareSteps.{
  cmp_op, joins, is_range-joins, parse_compare_op-hit, parse_compare_op-look, no_ambiguous,
}
use dq_lang.Prelude.{
  ℕ, ◌<◌, ◌≡◌, refl, ◌∙◌, inl, inr, true, false, some, ◌∷◌, ◌++◌, if◌then◌else◌, Bool-cases, Bytes,
  Option, none,
}

-- The text of two comparisons, and the expression that it stands for with the text that is left.
unfoldable pub chain_text : (ℕ → Bytes) → Tree → Cmp → Tree → Cmp → Tree → Bytes → Bytes
chain_text name a o b p c more = print name a (
    32
    ∷ (cmp_text o ++ 32 ∷ print name b (32 ∷ (cmp_text p ++ 32 ∷ print name c (32 ∷ b';' ∷ more)))))

-- A range or a comparison, with what is left behind it: of two comparisons that join, a range over all
-- three sums, unless the first of them is refused; else the first comparison alone.
unfoldable pub range_of :
    {E T : Type 0} → Compares E T → Option E → CompareOp → E → E → Bytes → Bytes → Option E × Bytes
range_of compares none op b c behind front_of_second = (none, front_of_second)
range_of compares (some first) op b c behind front_of_second =
    if compares.is_compare_expr first
    then (
      some (compares.range_compare first (compares.create_compare op (compares.cached_load b) c) b),
      behind,
    )
    else (some first, front_of_second)

unfoldable pub chain_outcome :
    {E T : Type 0} → Compares E T → E → Cmp → E → Cmp → E → Bytes → Bytes → Option E × Bytes
chain_outcome compares a o b p c behind front_of_second =
    let kept = compares.cached b in
    let range =
      range_of compares (compares.create_compare (cmp_op o) a kept) (cmp_op p) kept c behind
        front_of_second in
    if joins o p then range else (compares.create_compare (cmp_op o) a b, front_of_second)

-- A function returned this expression and stopped in front of this text.
abbrev pub Returns : {E : Type 0} → Parsed E → Option E × Bytes → Type 0
Returns p out = (g : Feeder) × (p ≡ some (g, out.0)) × Sees g out.1

module _ {E T : Type 0} (front : Front E) (compares : Compares E T) (name : ℕ → Bytes)
    (value : ℕ → E) (lex : Lexes front name value) where
  abbrev val : Tree → Option E
  val t = tree_value front name value t

  -- The text from the second comparison on.
  abbrev second : Cmp → Tree → Bytes → Bytes
  second p c more = cmp_text p ++ 32 ∷ print name c (32 ∷ b';' ∷ more)

  range_first-reads :
      (p : Cmp) (b vc first : E) (c : Tree) (n : ℕ) (f : Feeder) (more : Bytes)
      → val c ≡ some vc
      → Fits 6 c
      → size c < n
      → unread f ≡ second p c more
      → Returns
          (range_first front compares n (cmp_op p) first b f)
          (range_of compares (some first) (cmp_op p) b vc (b';' ∷ more) (second p c more))
  unfolding range_first range_of
  range_first-reads p b vc first c n f more valued fits enough sees =
      let (hit, left) = parse_compare_op-hit p (print name c (32 ∷ b';' ∷ more)) f sees in
      let (g, e, k) =
        parse_expr_add-Ends front name value lex c n (parse_compare_op true f).0 (b';' ∷ more) vc
          valued fits enough (inr left) (inl (more, refl)) in
      elim (Bool-cases (compares.is_compare_expr first)) [
        | inl compared ↦ (g, rw (compared, e) refl, rw compared k)
        | inr no_node ↦ (f, rw no_node refl, rw no_node (inl sees))
      ]

  created-reads :
      (out : Option E) (p : Cmp) (b vc : E) (c : Tree) (n : ℕ) (f : Feeder) (more : Bytes)
      → val c ≡ some vc
      → Fits 6 c
      → size c < n
      → unread f ≡ second p c more
      → Returns
          (or_null front compares
            (λ first. range_first front compares n (cmp_op p) first b f)
            f
            out)
          (range_of compares out (cmp_op p) b vc (b';' ∷ more) (second p c more))
  created-reads none p b vc c n f more valued fits enough sees =
      (f, unfold range_of in refl, unfold range_of in inl sees)
  created-reads (some first) p b vc c n f more valued fits enough sees =
      range_first-reads p b vc first c n f more valued fits enough sees

  parse_range-reads :
      (o p : Cmp) (va vb vc : E) (c : Tree) (n : ℕ) (f : Feeder) (more : Bytes)
      → compares.is_text_literal vb ≡ false
      → val c ≡ some vc
      → Fits 6 c
      → size c < n
      → unread f ≡ second p c more
      → Returns (parse_range front compares n (cmp_op o) (cmp_op p) va f vb) (
          range_of compares
            (compares.create_compare (cmp_op o) va (compares.cached vb))
            (cmp_op p)
            (compares.cached vb)
            vc
            (b';' ∷ more)
            (second p c more))
  unfolding parse_range
  parse_range-reads o p va vb vc c n f more no_text valued fits enough sees = rw no_text (
      created-reads (compares.create_compare (cmp_op o) va (compares.cached vb)) p
        (compares.cached vb) vc c n f more valued fits enough sees)

  after_right-reads :
      (o p : Cmp) (va vb vc : E) (c : Tree) (n : ℕ) (f : Feeder) (more : Bytes)
      → compares.is_text_literal vb ≡ false
      → val c ≡ some vc
      → Fits 6 c
      → size c < n
      → Sees f (second p c more)
      → Returns
          (after_right front compares n (cmp_op o) va f vb)
          (chain_outcome compares va o vb p vc (b';' ∷ more) (second p c more))
  unfolding after_right chain_outcome
  after_right-reads o p va vb vc c n f more no_text valued fits enough sees =
      let text = print name c (32 ∷ b';' ∷ more) in
      let skipped = lex.skips true f (cmp_text p ++ 32 ∷ text) sees (cmp_solid p text) in
      let (found, left) = parse_compare_op-look p text (front.skip_white true f) skipped in
      let g = (parse_compare_op false (front.skip_white true f)).0 in
      elim (Bool-cases (joins o p)) [
        | inl e ↦
            let (h, same, k) =
              parse_range-reads o p va vb vc c n g more no_text valued fits enough left in
            (h, rw (found, is_range-joins o p, e) same, rw e k)
        | inr e ↦ (g, rw (found, is_range-joins o p, e) refl, rw e (inl left))
      ]

  -- Behind a comparison the right operand is read.
  right_operand :
      (o : Cmp) (n : ℕ) (left b : E) (x : Feeder × CompareOp) (h : Feeder)
      → x.1 ≡ cmp_op o
      → parse_expr_add front n x.0 ≡ some (h, some b)
      → after_compare_op front compares n left x ≡ after_right front compares n (cmp_op o) left h b
  right_operand eq n left b (f, op) h e k = rw (e, k) refl
  right_operand ne n left b (f, op) h e k = rw (e, k) refl
  right_operand lt n left b (f, op) h e k = rw (e, k) refl
  right_operand le n left b (f, op) h e k = rw (e, k) refl
  right_operand gt n left b (f, op) h e k = rw (e, k) refl
  right_operand ge n left b (f, op) h e k = rw (e, k) refl

  after_left-reads :
      (o p : Cmp) (va vb vc : E) (b c : Tree) (n : ℕ) (f : Feeder) (more : Bytes)
      → compares.is_text_literal vb ≡ false
      → val b ≡ some vb
      → val c ≡ some vc
      → Fits 6 b
      → Fits 6 c
      → size b < n
      → size c < n
      → Sees f (cmp_text o ++ 32 ∷ print name b (32 ∷ second p c more))
      → Returns
          (after_left front compares n f va)
          (chain_outcome compares va o vb p vc (b';' ∷ more) (second p c more))
  unfolding after_left
  after_left-reads o p va vb vc b c n f more no_text valued_b valued_c fits_b fits_c enough_b
        enough_c sees =
      let tail = second p c more in
      let text = print name b (32 ∷ tail) in
      let skipped = lex.skips true f (cmp_text o ++ 32 ∷ text) sees (cmp_solid o text) in
      let (clear, same) =
        any_symbol-miss ambiguous (cmp_text o ++ 32 ∷ text) (front.skip_white true f) skipped
          (no_ambiguous o text) in
      let g = (any_symbol ambiguous (front.skip_white true f)).0 in
      let (found, left) = parse_compare_op-hit o text g same in
      let (h, read, k) =
        parse_expr_add-Ends front name value lex b n (parse_compare_op true g).0 tail vb valued_b
          fits_b enough_b (inr left) (inr (p, print name c (32 ∷ b';' ∷ more), refl)) in
      let (d, e, s) =
        after_right-reads o p va vb vc c n h more no_text valued_c fits_c enough_c k in
      (d, rw clear (right_operand o n va vb (parse_compare_op true g) h found read ∙ e), s)

-- Where white space and operands are read as the record Lexes says, two comparisons between three sums
-- whose nodes CreateBinExpr accepts, with a blank between two tokens and a `;` behind them, and no text
-- literal in the middle: if both are of `<`, `<=` or both of `>`, `>=`, ParseComparison returns one
-- range over all three, its second bound compared with the kept operand in the middle, and stops at the
-- `;`; but where CreateCompareExpr makes no comparison of the first two, it returns what that gives and
-- stops in front of the second comparison. Otherwise the first comparison alone is returned, and the
-- reader stops in front of the second. More fuel than each tree has nodes is enough.
pub parse_comparison-print :
    {E T : Type 0} (front : Front E) (compares : Compares E T) (name : ℕ → Bytes) (value : ℕ → E)
    → Lexes front name value
    → (a b c : Tree) (va vb vc : E) (o p : Cmp) (n : ℕ) (f : Feeder) (more : Bytes)
    → tree_value front name value a ≡ some va
    → tree_value front name value b ≡ some vb
    → tree_value front name value c ≡ some vc
    → compares.is_text_literal vb ≡ false
    → Fits 6 a
    → Fits 6 b
    → Fits 6 c
    → size a < n
    → size b < n
    → size c < n
    → unread f ≡ chain_text name a o b p c more
    → Returns (parse_comparison front compares n f) (
        chain_outcome compares va o vb p vc
          (b';' ∷ more)
          (cmp_text p ++ 32 ∷ print name c (32 ∷ b';' ∷ more)))
unfolding parse_comparison chain_text
parse_comparison-print front compares name value lex a b c va vb vc o p n f more valued_a valued_b
      valued_c no_text fits_a fits_b fits_c enough_a enough_b enough_c sees =
    let tail = cmp_text p ++ 32 ∷ print name c (32 ∷ b';' ∷ more) in
    let text = print name b (32 ∷ tail) in
    let (h, read, k) =
      parse_expr_add-Ends front name value lex a n f (cmp_text o ++ 32 ∷ text) va valued_a fits_a
        enough_a (inl sees) (inr (o, text, refl)) in
    let (g, e, s) =
      after_left-reads front compares name value lex o p va vb vc b c n h more no_text valued_b
        valued_c fits_b fits_c enough_b enough_c k in
    (g, rw read e, s)
