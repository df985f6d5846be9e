-- ===== src/Parser/RoundTrip.antt =====
-- A tree that is written without parentheses is parsed as that tree.
use dq_lang.Feeder.State.{Feeder, unread}
use dq_lang.Feeder.Scan.{starts_with}
use dq_lang.Feeder.Tokens.{check_symbol, is_letter}
use dq_lang.Parser.Levels.{Front, parse_expr_unary, parse_levels, parse_expr_add}
use dq_lang.Parser.Print.{
  Sym, rank, Tree, size, Fits, print, plus, minus, times, slash, bar, amp, shl, shr, operand, node,
  minus_of, tilde_of, ops_at,
}
use dq_lang.Parser.Steps.{check_symbol-hit, check_symbol-miss}
use dq_lang.Parser.Lexing.{Lexes, solid, Sees, Ends, Follows-weaken}
use dq_lang.Parser.LevelLaws.{
  solid_letter, tree_value, ReadsTree, Loops, ReadsTree-Loops, Loops-ReadsTree, Loops-node,
  unary_value-some,
}
use dq_lang.Prelude.{
  ℕ, zero, suc, ◌≤◌, ◌≡◌, refl, ap, ◌≢◌, inl, inr, true, false, Option, some, [], ◌∷◌, ◌++◌, arith,
  ◌==◌, ==_ne, Bool-cases, codes, Bytes, ◌<◌, ◌∙◌,
}

letter_apart : (c d : ℕ) → is_letter c ≡ true → is_letter d ≡ false → d ≢ c
letter_apart c d h k e = let both : is_letter c ≡ false = rw e at k in cc

operand_first :
    (c d : ℕ) (cs : Bytes)
    → is_letter c ≡ true
    → is_letter d ≡ false
    → starts_with (d ∷ []) (c ∷ cs) ≡ false
unfolding starts_with
operand_first c d cs h k = rw (==_ne d c (letter_apart c d h k)) refl

lower : (j : ℕ) (o : Sym) → (rank o == suc j) ≡ false → rank o ≤ suc j → rank o ≤ j
lower j o e h = ground arith

no_rank : (o : Sym) (l r : Tree) → Fits 0 (node o l r) → ⊥
unfolding Fits
no_rank o l r (h, _, _) =
    elim o as (λ (p : Sym). rank p ≤ 0 → ⊥) [
      | plus ↦ λ k. absurd (omega arith)
      | minus ↦ λ k. absurd (omega arith)
      | times ↦ λ k. absurd (omega arith)
      | slash ↦ λ k. absurd (omega arith)
      | bar ↦ λ k. absurd (omega arith)
      | amp ↦ λ k. absurd (omega arith)
      | shl ↦ λ k. absurd (omega arith)
      | shr ↦ λ k. absurd (omega arith)
    ]
      h

minus_weaken : (t : Tree) (i : ℕ) → Fits (suc i) (minus_of t) → Fits i (minus_of t)
unfolding Fits
minus_weaken t i h = h

tilde_weaken : (t : Tree) (i : ℕ) → Fits (suc i) (tilde_of t) → Fits i (tilde_of t)
unfolding Fits
tilde_weaken t i h = h

module _ {E : Type 0} (front : Front E) (name : ℕ → Bytes) (value : ℕ → E)
    (lex : Lexes front name value) where
  abbrev Reading : ℕ → Tree → Type 0
  Reading j t = ReadsTree front name value j t

  abbrev Looping : ℕ → Tree → Type 0
  Looping j t = Loops front name value j t

  -- The symbols of the unary operators do not begin an operand.
  first_char :
      (x : ℕ) (tail : Bytes) (d : ℕ)
      → is_letter d ≡ false
      → starts_with (d ∷ []) (name x ++ 32 ∷ tail) ≡ false
  first_char x tail d h =
      let (c, cs, e, letter) = lex.letters x in rw e (operand_first c d (cs ++ 32 ∷ tail) letter h)

  unary-operand : (x : ℕ) → Reading 0 (operand x)
  unfolding parse_levels parse_expr_unary print tree_value
  unary-operand x zero f tail v valued fits enough sees follows = absurd (omega arith)
  unary-operand x (suc n) f tail v valued fits enough sees follows =
      let (c, cs, e, letter) = lex.letters x in
      let text = name x ++ 32 ∷ tail in
      let start : text ≡ c ∷ (cs ++ 32 ∷ tail) = ap (λ w. w ++ 32 ∷ tail) e in
      let skipped = lex.skips false f text sees (rw e (solid_letter c (cs ++ 32 ∷ tail) letter)) in
      let f1 = front.skip_white false f in
      let (p1, q1) =
        check_symbol-miss (codes "%") text true f1 skipped
          (first_char x tail b'%' (unfold is_letter in refl)) in
      let f2 = (check_symbol (codes "%") true f1).0 in
      let (p2, q2) =
        check_symbol-miss (codes "-") text true f2 q1
          (first_char x tail b'-' (unfold is_letter in refl)) in
      let f3 = (check_symbol (codes "-") true f2).0 in
      let (p3, q3) =
        check_symbol-miss (codes "~") text true f3 q2
          (first_char x tail b'~' (unfold is_letter in refl)) in
      let f4 = (check_symbol (codes "~") true f3).0 in
      let (found, left) =
        lex.operands x f4 tail q3 (Follows-weaken 0 1 tail (omega arith) follows) in
      let r = front.parse_postfix f4 in
      (r.0, rw (p1, p2, p3) (ap (λ (o : Option E). some (r.0, o)) (found ∙ valued)), left)

  unary-minus_of : (t : Tree) → Reading 0 t → Reading 0 (minus_of t)
  unfolding parse_levels parse_expr_unary print tree_value size Fits
  unary-minus_of t reads zero f tail v valued fits enough sees follows = absurd (omega arith)
  unary-minus_of t reads (suc n) f tail v valued fits enough sees follows =
      let (w, inside, made) =
        unary_value-some front name value front.neg (tree_value front name value t) v valued in
      let text = print name t (32 ∷ tail) in
      let skipped = lex.skips false f (b'-' ∷ 32 ∷ text) sees (unfold solid in refl) in
      let f1 = front.skip_white false f in
      let (p1, q1) =
        check_symbol-miss (codes "%") (b'-' ∷ 32 ∷ text) true f1 skipped
          (unfold starts_with in refl) in
      let f2 = (check_symbol (codes "%") true f1).0 in
      let (p2, q2) = check_symbol-hit (codes "-") (32 ∷ text) f2 q1 in
      let f3 = (check_symbol (codes "-") true f2).0 in
      let (g, e, k) = reads n f3 tail w inside fits (omega arith) (inr q2) follows in
      (g, rw (p1, p2, e, made) refl, k)

  unary-tilde_of : (t : Tree) → Reading 0 t → Reading 0 (tilde_of t)
  unfolding parse_levels parse_expr_unary print tree_value size Fits
  unary-tilde_of t reads zero f tail v valued fits enough sees follows = absurd (omega arith)
  unary-tilde_of t reads (suc n) f tail v valued fits enough sees follows =
      let (w, inside, made) =
        unary_value-some front name value front.bin_not (tree_value front name value t) v valued in
      let text = print name t (32 ∷ tail) in
      let skipped = lex.skips false f (b'~' ∷ 32 ∷ text) sees (unfold solid in refl) in
      let f1 = front.skip_white false f in
      let (p1, q1) =
        check_symbol-miss (codes "%") (b'~' ∷ 32 ∷ text) true f1 skipped
          (unfold starts_with in refl) in
      let f2 = (check_symbol (codes "%") true f1).0 in
      let (p2, q2) =
        check_symbol-miss (codes "-") (b'~' ∷ 32 ∷ text) true f2 q1 (unfold starts_with in refl) in
      let f3 = (check_symbol (codes "-") true f2).0 in
      let (p3, q3) = check_symbol-hit (codes "~") (32 ∷ text) f3 q2 in
      let f4 = (check_symbol (codes "~") true f3).0 in
      let (g, e, k) = reads n f4 tail w inside fits (omega arith) (inr q3) follows in
      (g, rw (p1, p2, p3, e, made) refl, k)

  -- What is read as an operand is read at every level.
  lift : (t : Tree) → ((i : ℕ) → Fits (suc i) t → Fits i t) → Reading 0 t → (j : ℕ) → Reading j t
  lift t weaken reads zero = reads
  lift t weaken reads (suc j) =
      ReadsTree-Loops front name value lex j t
        (Loops-ReadsTree front name value lex j t (weaken j) (lift t weaken reads j))

  Loops-lift :
      (t : Tree) → ((i : ℕ) → Fits (suc i) t → Fits i t) → Reading 0 t → (j : ℕ) → Looping j t
  Loops-lift t weaken reads j =
      Loops-ReadsTree front name value lex j t (weaken j) (lift t weaken reads j)

  -- A tree with an operator on top, when its operands are read.
  node_loops :
      (o : Sym) (l r : Tree)
      → ((j : ℕ) → Looping j l)
      → ((j : ℕ) → Reading j r)
      → (j : ℕ) → Reading j (node o l r)
      → Looping j (node o l r)
  node_loops o l r loops reads j whole = elim (Bool-cases (rank o == suc j)) [
    | inl e ↦ Loops-node front name value lex j o l r (ground arith) (loops j) (reads j)
    | inr e ↦
        Loops-ReadsTree front name value lex j (node o l r)
          (unfold Fits in λ h. (lower j o e h.0, h.1, h.2)) whole
  ]

  node_reads :
      (o : Sym) (l r : Tree)
      → ((j : ℕ) → Looping j l)
      → ((j : ℕ) → Reading j r)
      → (j : ℕ) → Reading j (node o l r)
  node_reads o l r loops reads zero =
      λ n f tail v valued fits enough sees follows. absurd (no_rank o l r fits)
  node_reads o l r loops reads (suc j) =
      ReadsTree-Loops front name value lex j (node o l r)
        (node_loops o l r loops reads j (node_reads o l r loops reads j))

  tree_reads : (t : Tree) → ((j : ℕ) → Reading j t) × ((j : ℕ) → Looping j t)
  tree_reads (operand x) =
      let weaken : (i : ℕ) → Fits (suc i) (operand x) → Fits i (operand x) =
        (λ i h. unfold Fits in tt) in
      (lift (operand x) weaken (unary-operand x), Loops-lift (operand x) weaken (unary-operand x))
  tree_reads (minus_of t) =
      let reads = unary-minus_of t ((tree_reads t).0 0) in
      (lift (minus_of t) (minus_weaken t) reads, Loops-lift (minus_of t) (minus_weaken t) reads)
  tree_reads (tilde_of t) =
      let reads = unary-tilde_of t ((tree_reads t).0 0) in
      (lift (tilde_of t) (tilde_weaken t) reads, Loops-lift (tilde_of t) (tilde_weaken t) reads)
  tree_reads (node o l r) =
      let loops = (tree_reads l).1 in
      let reads = (tree_reads r).0 in
      let whole = node_reads o l r loops reads in
      (whole, λ j. node_loops o l r loops reads j (whole j))

-- A tree in front of a `;` or a comparison is parsed by ParseExprAdd as that tree.
pub parse_expr_add-Ends :
    {E : Type 0} (front : Front E) (name : ℕ → Bytes) (value : ℕ → E)
    → Lexes front name value
    → (t : Tree) (n : ℕ) (f : Feeder) (tail : Bytes) (e : E)
    → tree_value front name value t ≡ some e
    → Fits 6 t
    → size t < n
    → Sees f (print name t (32 ∷ tail))
    → Ends tail
    → (g : Feeder) × (parse_expr_add front n f ≡ some (g, some e)) × Sees g tail
unfolding parse_expr_add ops_at
parse_expr_add-Ends front name value lex t n f tail e valued fits enough sees ends =
    (tree_reads front name value lex t).0 6 n f tail e valued fits enough sees (inl ends)

-- Where white space and operands are read as the record Lexes says, an expression of operands, unary
-- `-` and `~`, and the binary operators that are symbols, written without parentheses with a blank
-- between two tokens and a `;` behind it, is parsed by ParseExprAdd as the tree that was written, if
-- CreateBinExpr accepts each node of this tree and in it the operators bind as `<< >>`, `&`, `|`, `/`,
-- `*`, `+ -` from the tightest on and those of one level group to the left; the reader stops in front
-- of the `;`, and more fuel than the tree has nodes is enough.
pub parse_expr_add-print :
    {E : Type 0} (front : Front E) (name : ℕ → Bytes) (value : ℕ → E)
    → Lexes front name value
    → (t : Tree) (n : ℕ) (f : Feeder) (more : Bytes) (e : E)
    → tree_value front name value t ≡ some e
    → Fits 6 t
    → size t < n
    → unread f ≡ print name t (32 ∷ b';' ∷ more)
    → (g : Feeder) × (parse_expr_add front n f ≡ some (g, some e)) × Sees g (b';' ∷ more)
parse_expr_add-print front name value lex t n f more e valued fits enough sees =
    parse_expr_add-Ends front name value lex t n f (b';' ∷ more) e valued fits enough (inl sees)
      (inl (more, refl))
