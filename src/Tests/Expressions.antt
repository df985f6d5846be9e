-- ===== src/Tests/Expressions.antt =====
-- Expressions: compiler/parser/dqc_parser_expr.cpp, with white space, identifiers as operands and
-- trees in place of the rest of the compiler.
use dq_lang.ConstInt.Fold.{
  BinOp, binop_add, binop_sub, binop_mul, binop_div, binop_iand, binop_ior, binop_ishl, binop_ishr,
}
use dq_lang.Feeder.State.{Feeder, Cursor, advance, unread, cursor}
use dq_lang.Feeder.Scan.{skip_spaces_loop, skip_spaces}
use dq_lang.Feeder.Tokens.{is_letter, is_digit, identifier_loop, read_identifier}
use dq_lang.Parser.Levels.{Front, parse_expr_add}
use dq_lang.Parser.Print.{
  Tree, size, Fits, print, plus, minus, times, slash, bar, amp, shl, shr, operand, node, minus_of,
  tilde_of, lt, le,
}
use dq_lang.Parser.Steps.{Reads}
use dq_lang.Parser.Lexing.{Lexes, solid, Sees, Follows, Follows-solid}
use dq_lang.Parser.LevelLaws.{tree_value}
use dq_lang.Parser.RoundTrip.{parse_expr_add-print}
use dq_lang.Parser.Comparison.{Compares, CompareOp, parse_comparison, compop_lt, compop_le}
use dq_lang.Parser.CompareSteps.{joins}
use dq_lang.Parser.RangeLaws.{chain_text, parse_comparison-print, range_of, chain_outcome}
use dq_lang.Prelude.{
  ℕ, suc, ◌+◌, ◌-◌, ◌<◌, ◌≡◌, refl, sym, ap, ◌∙◌, inl, inr, true, false, not, Option, none, some,
  [], ◌∷◌, ◌++◌, arith, ltb, ◌==◌, if◌then◌else◌, lt→ltb, Bool-cases, length, drop, length-drop,
  drop-drop, codes, same_text, Bytes, Bool,
}

-- The two operands are `a` and `b`.
abbrev letter_of : ℕ → Bytes
letter_of x = if x == 0 then codes "a" else codes "b"

abbrev operand_of : ℕ → Tree
operand_of x = if x == 0 then operand 0 else operand 1

abbrev named : Option Bytes → Option Tree
named none = none
named (some s) = some (if same_text s (codes "a") then operand 0 else operand 1)

abbrev identifier_operand : Feeder → Feeder × Option Tree
identifier_operand f = let (g, found) = read_identifier true f in (skip_spaces true g, named found)

-- The node of an operator that is a symbol; the others are refused.
abbrev sym_node : BinOp → Tree → Tree → Option Tree
sym_node binop_add l r = some (node plus l r)
sym_node binop_sub l r = some (node minus l r)
sym_node binop_mul l r = some (node times l r)
sym_node binop_div l r = some (node slash l r)
sym_node binop_ior l r = some (node bar l r)
sym_node binop_iand l r = some (node amp l r)
sym_node binop_ishl l r = some (node shl l r)
sym_node binop_ishr l r = some (node shr l r)
sym_node _ l r = none

abbrev create : BinOp → Tree → Option Tree → Option Tree
create op l none = none
create op l (some r) = sym_node op l r

abbrev front : Front Tree
front = record {
  skip_white = λ b f. skip_spaces true f;
  eof = λ f. not (ltb f.curp (length f.file.body));
  parse_postfix = identifier_operand;
  parse_address = identifier_operand;
  create_bin = create;
  neg = minus_of;
  bin_not = tilde_of;
}

solid_stop : (text : Bytes) (k : Cursor) → solid text ≡ true → skip_spaces_loop true text k ≡ k
unfolding solid skip_spaces_loop
solid_stop [] k h = refl
solid_stop (c ∷ cs) k h = ground arith

skip_blank :
    (text : Bytes) (k : Cursor)
    → solid text ≡ true
    → skip_spaces_loop true (32 ∷ text) k ≡ advance 32 k
unfolding skip_spaces_loop
skip_blank text k h = solid_stop text (advance 32 k) h

skips_spaces :
    (f : Feeder) (text : Bytes)
    → Sees f text
    → solid text ≡ true
    → unread (skip_spaces true f) ≡ text
unfolding skip_spaces
skips_spaces f text (inl e) h = rw (e, solid_stop text (cursor f) h) e
skips_spaces f text (inr e) h =
    let one_on : drop (f.curp + 1) f.file.body ≡ text =
      sym (drop-drop f.curp 1 f.file.body) ∙ ap (drop 1) e in
    let past : skip_spaces_loop true (32 ∷ text) (cursor f) ≡ advance 32 (cursor f) =
      skip_blank text (cursor f) h in
    rw (e, past) one_on

in_front :
    (f : Feeder) (c : ℕ) (text : Bytes)
    → unread f ≡ c ∷ text
    → not (ltb f.curp (length f.file.body)) ≡ false
in_front f c text h =
    let size : length (unread f) ≡ length f.file.body - f.curp = length-drop f.curp f.file.body in
    let more : length (unread f) ≡ suc (length text) = ap length h in
    let less : f.curp < length f.file.body = omega (arith, size, more) in
    ground (arith, lt→ltb f.curp (length f.file.body))

letter_loop : (c : ℕ) (tail : Bytes) → is_letter c ≡ true → identifier_loop true (c ∷ 32 ∷ tail) ≡ 1
unfolding identifier_loop is_letter is_digit
letter_loop c tail h = ground arith

read_letter :
    (c : ℕ) (f : Feeder) (tail : Bytes)
    → is_letter c ≡ true
    → unread f ≡ c ∷ 32 ∷ tail
    → Reads (read_identifier true f) (some (c ∷ [])) (32 ∷ tail)
unfolding read_identifier
read_letter c f tail h e =
    let one : identifier_loop true (c ∷ 32 ∷ tail) ≡ 1 = letter_loop c tail h in
    let past : drop (f.curp + 1) f.file.body ≡ 32 ∷ tail =
      sym (drop-drop f.curp 1 f.file.body) ∙ ap (drop 1) e in
    rw (e, one) (refl, past)

read_name :
    (x : ℕ) (f : Feeder) (tail : Bytes)
    → unread f ≡ letter_of x ++ 32 ∷ tail
    → (named (read_identifier true f).1 ≡ some (operand_of x))
      × (unread (read_identifier true f).0 ≡ 32 ∷ tail)
read_name x f tail h = elim (Bool-cases (x == 0)) [
  | inl e ↦
      let (found, left) = read_letter b'a' f tail (unfold is_letter in refl) (rw e at h) in
      rw (e, found) (refl, left)
  | inr e ↦
      let (found, left) = read_letter b'b' f tail (unfold is_letter in refl) (rw e at h) in
      rw (e, found) (refl, left)
]

read_operand :
    (x : ℕ) (f : Feeder) (tail : Bytes)
    → unread f ≡ letter_of x ++ 32 ∷ tail
    → Follows 0 tail
    → ((identifier_operand f).1 ≡ some (operand_of x)) × Sees (identifier_operand f).0 tail
read_operand x f tail h follows =
    let (found, left) = read_name x f tail h in
    (
      found,
      inl (skips_spaces (read_identifier true f).0 tail (inr left) (Follows-solid 0 tail follows)),
    )

operand_letter : (x : ℕ) → (c : ℕ) × (cs : Bytes) × (letter_of x ≡ c ∷ cs) × (is_letter c ≡ true)
unfolding is_letter
operand_letter x = elim (Bool-cases (x == 0)) [
  | inl e ↦ (b'a', [], rw e refl, refl)
  | inr e ↦ (b'b', [], rw e refl, refl)
]

lexes : Lexes front letter_of operand_of
lexes = record {
  skips = λ b f text s h. skips_spaces f text s h;
  goes_on = in_front;
  operands = read_operand;
  letters = operand_letter;
}

-- a - b * a - ~ b >> a
abbrev tree : Tree
tree =
    node minus (node minus (operand 0) (node times (operand 1) (operand 0)))
      (node shr (tilde_of (operand 1)) (operand 0))

abbrev source : Feeder
source = record {
  file = record { index = 1; body = codes "a - b * a - ~ b >> a ;" };
  curp = 0;
  prevp = 0;
  prevlen = 0;
  curline = 1;
  curcol = 1;
  clstart = 0;
  prevpos = none;
  last_token_end_line = 0;
}

parse_expr_add-print_example :
    (g : Feeder) × (parse_expr_add front 20 source ≡ some (g, some tree)) × Sees g (codes ";")
parse_expr_add-print_example =
    parse_expr_add-print front letter_of operand_of lexes tree 20 source [] tree
      (unfold tree_value in refl)
      (unfold Fits in
        (omega arith, (omega arith, tt, (omega arith, tt, tt)), (omega arith, tt, tt)))
      (unfold size in omega arith) (unfold print in refl)

-- An expression with comparisons: a tree, a comparison of two trees, the operand in the middle of a
-- range, or a range.
data Compared : Type 0 where
  sum kept : Tree → Compared
  compared : CompareOp → Tree → Tree → Compared
  range : CompareOp → Tree → CompareOp → Tree → Tree → Compared

abbrev tree_of : Compared → Tree
tree_of (sum t) = t
tree_of (kept t) = t
tree_of (compared op l r) = l
tree_of (range op l op2 m r) = l

abbrev lift_sum : Option Tree → Option Compared
lift_sum none = none
lift_sum (some t) = some (sum t)

abbrev is_compared : Compared → Bool
is_compared (compared op l r) = true
is_compared _ = false

abbrev range_node : Compared → Option Compared → Compared → Compared
range_node (compared op l m) (some (compared op2 k r)) middle = range op l op2 m r
range_node first second middle = first

abbrev create_sum : BinOp → Compared → Option Compared → Option Compared
create_sum op l none = none
create_sum op l (some r) = lift_sum (sym_node op (tree_of l) (tree_of r))

abbrev read_sum : Feeder → Feeder × Option Compared
read_sum f = let (g, found) = identifier_operand f in (g, lift_sum found)

abbrev sum_front : Front Compared
sum_front = record {
  skip_white = λ b f. skip_spaces true f;
  eof = λ f. not (ltb f.curp (length f.file.body));
  parse_postfix = read_sum;
  parse_address = read_sum;
  create_bin = create_sum;
  neg = λ e. sum (minus_of (tree_of e));
  bin_not = λ e. sum (tilde_of (tree_of e));
}

-- There are no types.
abbrev compares : Compares Compared ⊥
compares = record {
  parse_type_spec = λ f. (f, none);
  is_expr = λ e t. e;
  convert_as = λ t e. none;
  create_compare = λ op l r. some (compared op (tree_of l) (tree_of r));
  is_compare_expr = is_compared;
  is_text_literal = λ e. false;
  convert_to_slice = λ e. some e;
  cached = λ e. kept (tree_of e);
  cached_load = λ e. sum (tree_of e);
  range_compare = range_node;
}

read_sum_operand :
    (x : ℕ) (f : Feeder) (tail : Bytes)
    → unread f ≡ letter_of x ++ 32 ∷ tail
    → Follows 0 tail
    → ((read_sum f).1 ≡ some (sum (operand_of x))) × Sees (read_sum f).0 tail
read_sum_operand x f tail h follows =
    let (found, left) = read_operand x f tail h follows in (ap lift_sum found, left)

sum-Lexes : Lexes sum_front letter_of (λ x. sum (operand_of x))
sum-Lexes = record {
  skips = λ b f text s h. skips_spaces f text s h;
  goes_on = in_front;
  operands = read_sum_operand;
  letters = operand_letter;
}

abbrev chain_source : Feeder
chain_source = record source { file = record { index = 1; body = codes "a < a + b <= b ;" } }

parse_comparison-print_example :
    (g : Feeder) × (parse_comparison sum_front compares 20 chain_source
      ≡ some (
        g,
        some
            (range compop_lt (operand 0) compop_le (node plus (operand 0) (operand 1)) (operand 1)),
      ))
    × Sees g (codes ";")
unfolding chain_outcome range_of joins
parse_comparison-print_example =
    parse_comparison-print sum_front compares letter_of (λ x. sum (operand_of x)) sum-Lexes
      (operand 0) (node plus (operand 0) (operand 1)) (operand 1) (sum (operand 0))
      (sum (node plus (operand 0) (operand 1))) (sum (operand 1)) lt le 20 chain_source []
      (unfold tree_value in refl) (unfold tree_value in refl) (unfold tree_value in refl) refl
      (unfold Fits in tt) (unfold Fits in (omega arith, tt, tt)) (unfold Fits in tt)
      (unfold size in omega arith) (unfold size in omega arith) (unfold size in omega arith)
      (unfold chain_text in unfold print in refl)
