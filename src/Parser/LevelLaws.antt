-- ===== src/Parser/LevelLaws.antt =====
-- One level of the binary operators on a tree that is written without parentheses.
use dq_lang.ConstInt.Fold.{BinOp}
use dq_lang.Feeder.State.{Feeder, unread}
use dq_lang.Feeder.Tokens.{is_letter}
use dq_lang.Parser.Levels.{
  Front, Parsed, terminators, any_symbol, next_op, after_op, level_loop, parse_levels,
  parse_bin_op_level,
}
use dq_lang.Parser.Print.{
  Sym, sym_text, sym_op, rank, Tree, size, Fits, print, ops_at, levels, no_terminator, operand,
  node, minus_of, tilde_of,
}
use dq_lang.Parser.Steps.{Reads, any_symbol-miss, find_op-miss, find_op-hit}
use dq_lang.Parser.Lexing.{
  Lexes, solid, Sees, Follows, Follows-weaken, sym_solid, Follows-solid, Follows-no_terminator,
  Follows-no_op, sym-Finds,
}
use dq_lang.Prelude.{
  ℕ, zero, suc, ◌+◌, ◌≤◌, ◌<◌, ◌≡◌, refl, ◌∙◌, inl, inr, true, false, Option, none, some, [], ◌∷◌,
  ◌++◌, arith, Bytes, ◌-◌,
}

pub solid_letter : (c : ℕ) (cs : Bytes) → is_letter c ≡ true → solid (c ∷ cs) ≡ true
unfolding solid is_letter
solid_letter c cs h = ground arith

module _ {E : Type 0} (front : Front E) (name : ℕ → Bytes) (value : ℕ → E) where
  abbrev pub node_value : BinOp → Option E → Option E → Option E
  node_value op none r = none
  node_value op (some l) none = none
  node_value op (some l) (some r) = front.create_bin op l (some r)

  abbrev pub unary_value : (E → E) → Option E → Option E
  unary_value make none = none
  unary_value make (some e) = some (make e)

  -- The expression that a tree stands for, if CreateBinExpr accepts each of its nodes.
  unfoldable pub tree_value : Tree → Option E
  tree_value (operand x) = some (value x)
  tree_value (node o l r) = node_value (sym_op o) (tree_value l) (tree_value r)
  tree_value (minus_of t) = unary_value front.neg (tree_value t)
  tree_value (tilde_of t) = unary_value front.bin_not (tree_value t)

  node_value-some :
      (op : BinOp) (a b : Option E) (e : E)
      → node_value op a b ≡ some e
      → (l : E) × (r : E) × (a ≡ some l) × (b ≡ some r) × (front.create_bin op l (some r) ≡ some e)
  node_value-some op none b e h = cc
  node_value-some op (some l) none e h = cc
  node_value-some op (some l) (some r) e h = (l, r, refl, refl, h)

  pub unary_value-some :
      (make : E → E) (a : Option E) (e : E)
      → unary_value make a ≡ some e
      → (v : E) × (a ≡ some v) × (make v ≡ e)
  unary_value-some make none e h = cc
  unary_value-some make (some v) e h = (v, refl, cc)

  -- A function returned an expression and stopped in front of a text.
  abbrev pub Done : Parsed E → E → Bytes → Type 0
  Done p e tail = (g : Feeder) × (p ≡ some (g, some e)) × Sees g tail

  abbrev pub ReadsTree : ℕ → Tree → Type 0
  ReadsTree j t =
      (n : ℕ) (f : Feeder) (tail : Bytes) (e : E)
      → tree_value t ≡ some e
      → Fits j t
      → size t < n
      → Sees f (print name t (32 ∷ tail))
      → Follows (suc j) tail
      → Done (parse_levels front n (levels j) f) e tail

  -- A level has read a tree as its left operand, and goes on behind it.
  abbrev pub Loops : ℕ → Tree → Type 0
  Loops j t =
      (n : ℕ) (f : Feeder) (tail : Bytes) (e : E)
      → tree_value t ≡ some e
      → Fits (suc j) t
      → size t < n
      → Sees f (print name t (32 ∷ tail))
      → Follows (suc j) tail
      → (m : ℕ) × (g : Feeder) × (parse_levels front n (levels (suc j)) f
          ≡ level_loop front m (ops_at (suc j)) (parse_levels front n (levels j)) g e)
        × Sees g tail
        × (n ≤ m + size t)

  module _ (lex : Lexes front name value) where
    pub print-solid : (t : Tree) (tail : Bytes) → solid (print name t tail) ≡ true
    unfolding print
    print-solid (operand x) tail =
        let (c, cs, e, h) = lex.letters x in rw e (solid_letter c (cs ++ tail) h)
    print-solid (node o l r) tail = print-solid l _
    print-solid (minus_of t) tail = unfold solid in refl
    print-solid (tilde_of t) tail = unfold solid in refl

    goes_on : (g : Feeder) (tail : Bytes) → Sees g tail → solid tail ≡ true → front.eof g ≡ false
    goes_on g [] s h = let e : false ≡ true = (unfold solid in h) in cc
    goes_on g (c ∷ cs) (inl e) h = lex.goes_on g c cs e
    goes_on g (c ∷ cs) (inr e) h = lex.goes_on g 32 (c ∷ cs) e

    -- The look for an operator of a level in front of a text.
    next_op-miss :
        (j : ℕ) (g : Feeder) (tail : Bytes)
        → Sees g tail
        → Follows (suc j) tail
        → Reads (next_op front (ops_at j) g) none tail
    unfolding next_op
    next_op-miss j g tail s h =
        let here = lex.skips true g tail s (Follows-solid (suc j) tail h) in
        let (stop, same) =
          any_symbol-miss terminators tail (front.skip_white true g) here
            (Follows-no_terminator (suc j) tail h) in
        rw stop (
          find_op-miss (ops_at j) tail (any_symbol terminators (front.skip_white true g)).0 same
            (Follows-no_op j tail h))

    next_op-hit :
        (o : Sym) (more : Bytes) (g : Feeder)
        → Sees g (sym_text o ++ 32 ∷ more)
        → Reads (next_op front (ops_at (rank o)) g) (some (sym_op o)) (32 ∷ more)
    unfolding next_op
    next_op-hit o more g s =
        let text = sym_text o ++ 32 ∷ more in
        let here = lex.skips true g text s (sym_solid o more) in
        let (stop, same) =
          any_symbol-miss terminators text (front.skip_white true g) here (no_terminator o more) in
        rw stop (
          find_op-hit (ops_at (rank o)) text (sym_op o) (32 ∷ more)
            (any_symbol terminators (front.skip_white true g)).0 same (sym-Finds o more))

    after_op-none :
        (again : Feeder → E → Parsed E) (parse_next : Feeder → Parsed E) (left : E)
        (r : Feeder × Option BinOp)
        → r.1 ≡ none
        → after_op front again parse_next left r ≡ some (r.0, some left)
    after_op-none again parse_next left (g, none) e = refl
    after_op-none again parse_next left (g, some op) e = cc

    stops :
        (j m : ℕ) (g : Feeder) (tail : Bytes) (left : E) (n : ℕ)
        → Sees g tail
        → Follows (suc (suc j)) tail
        → 0 < m
        → Done
            (level_loop front m (ops_at (suc j)) (parse_levels front n (levels j)) g left)
            left
            tail
    unfolding level_loop
    stops j zero g tail left n s h pos = absurd (omega arith)
    stops j (suc m) g tail left n s h pos =
        let more = goes_on g tail s (Follows-solid (suc (suc j)) tail h) in
        let (found, same) = next_op-miss (suc j) g tail s h in
        let next = next_op front (ops_at (suc j)) g in
        (
          next.0,
          rw more (
              after_op-none (level_loop front m (ops_at (suc j)) (parse_levels front n (levels j)))
                (parse_levels front n (levels j)) left next found),
          inl same,
        )

    after_op-some :
        (again : Feeder → E → Parsed E) (parse_next : Feeder → Parsed E) (l r v : E) (op : BinOp)
        (x : Feeder × Option BinOp) (h : Feeder)
        → x.1 ≡ some op
        → parse_next x.0 ≡ some (h, some r)
        → front.create_bin op l (some r) ≡ some v
        → after_op front again parse_next l x ≡ again h v
    after_op-some again parse_next l r v op (g, none) h e k c = cc
    after_op-some again parse_next l r v op (g, some o) h e k c =
        let same : o ≡ op = cc in rw (k, same, c) refl

    round_step :
        (i m n : ℕ) (g : Feeder) (left : E) (p : Parsed E)
        → front.eof g ≡ false
        → after_op front
            (level_loop front m (ops_at (suc i)) (parse_levels front n (levels i)))
            (parse_levels front n (levels i))
            left
            (next_op front (ops_at (suc i)) g)
          ≡ p
        → level_loop front (suc m) (ops_at (suc i)) (parse_levels front n (levels i)) g left ≡ p
    unfolding level_loop
    round_step i m n g left p more e = rw more e

    -- One round of a level: an operator of its rank and the right operand.
    round :
        (o : Sym) (i : ℕ) (m n : ℕ) (g : Feeder) (left : E) (r : Tree) (tail : Bytes) (right v : E)
        → tree_value r ≡ some right
        → front.create_bin (sym_op o) left (some right) ≡ some v
        → rank o ≡ suc i
        → ReadsTree i r
        → Fits i r
        → size r < n
        → Sees g (sym_text o ++ 32 ∷ print name r (32 ∷ tail))
        → Follows (suc i) tail
        → (h : Feeder) × (level_loop front
              (suc m)
              (ops_at (suc i))
              (parse_levels front n (levels i))
              g
              left
            ≡ level_loop front m (ops_at (suc i)) (parse_levels front n (levels i)) h v)
          × Sees h tail
    round o i m n g left r tail right v valued created at_rank reads fits enough sees follows =
        let text = print name r (32 ∷ tail) in
        let more = goes_on g (sym_text o ++ 32 ∷ text) sees (sym_solid o text) in
        let (found, behind) = next_op-hit o text g sees in
        let x = next_op front (ops_at (suc i)) g in
        let hit : x.1 ≡ some (sym_op o) = rw at_rank at found in
        let seen : unread x.0 ≡ 32 ∷ text = rw at_rank at behind in
        let (h, e, k) = reads n x.0 tail right valued fits enough (inr seen) follows in
        (
          h,
          round_step i m n g left _ more (
              after_op-some (level_loop front m (ops_at (suc i)) (parse_levels front n (levels i)))
                (parse_levels front n (levels i)) left right v (sym_op o) x h hit e created),
          k,
        )

    -- A level that has read a tree stops in front of what follows.
    pub ReadsTree-Loops : (j : ℕ) (t : Tree) → Loops j t → ReadsTree (suc j) t
    ReadsTree-Loops j t loops n f tail v valued fits enough sees follows =
        let (m, g, same, sees_tail, fuel) =
          loops n f tail v valued fits enough sees
            (Follows-weaken (suc j) (suc (suc j)) tail (omega arith) follows) in
        let (h, e, k) = stops j m g tail v n sees_tail follows (omega arith) in (h, same ∙ e, k)

    -- A tree of a tighter level is the left operand of a level.
    pub Loops-ReadsTree :
        (j : ℕ) (t : Tree) → (Fits (suc j) t → Fits j t) → ReadsTree j t → Loops j t
    unfolding parse_levels parse_bin_op_level
    Loops-ReadsTree j t weaken reads n f tail v valued fits enough sees follows =
        let text = print name t (32 ∷ tail) in
        let skipped = lex.skips false f text sees (print-solid t (32 ∷ tail)) in
        let (g, e, k) =
          reads n (front.skip_white false f) tail v valued (weaken fits) enough (inl skipped)
            follows in
        (n, g, rw e refl, k, omega arith)

    Loops-round :
        (j : ℕ) (o : Sym) (l r : Tree) (m n : ℕ) (f g : Feeder) (tail : Bytes) (left right v : E)
        → tree_value r ≡ some right
        → front.create_bin (sym_op o) left (some right) ≡ some v
        → rank o ≡ suc j
        → ReadsTree j r
        → Fits j r
        → size r < n
        → parse_levels front n (levels (suc j)) f
          ≡ level_loop front m (ops_at (suc j)) (parse_levels front n (levels j)) g left
        → Sees g (sym_text o ++ 32 ∷ print name r (32 ∷ tail))
        → n ≤ m + size l
        → Follows (suc j) tail
        → size l + size r + 1 < n
        → (k : ℕ) × (h : Feeder) × (parse_levels front n (levels (suc j)) f
            ≡ level_loop front k (ops_at (suc j)) (parse_levels front n (levels j)) h v)
          × Sees h tail
          × (n ≤ k + (size l + size r + 1))
    Loops-round j o l r zero n f g tail left right v valued created at_rank reads fits less e k fuel
          follows enough =
        absurd (omega arith)
    Loops-round j o l r (suc m) n f g tail left right v valued created at_rank reads fits less e k
          fuel follows enough =
        let (h, step, sees) =
          round o j m n g left r tail right v valued created at_rank reads fits less k follows in
        (m, h, e ∙ step, sees, omega arith)

    -- A tree with an operator of the level itself.
    pub Loops-node :
        (j : ℕ) (o : Sym) (l r : Tree)
        → rank o ≡ suc j
        → Loops j l
        → ReadsTree j r
        → Loops j (node o l r)
    unfolding Fits size print tree_value
    Loops-node j o l r at_rank loops reads n f tail v valued (_, fits_l, fits_r) enough sees
          follows =
        let (left, right, left_value, right_value, created) =
          node_value-some (sym_op o) (tree_value l) (tree_value r) v valued in
        let left_fits : Fits (suc j) l = rw at_rank at fits_l in
        let tighter : rank o - 1 ≡ j = omega (arith, at_rank) in
        let right_fits : Fits j r = rw tighter at fits_r in
        let text = print name r (32 ∷ tail) in
        let (m, g, e, k, fuel) =
          loops n f (sym_text o ++ 32 ∷ text) left left_value left_fits (omega arith) sees
            (inr (o, text, refl, omega (arith, at_rank))) in
        Loops-round j o l r m n f g tail left right v right_value created at_rank reads right_fits
          (omega arith) e k fuel follows (omega arith)
