-- ===== src/Parser/Comparison.antt =====
-- ParseComparison and ParseCompareOp, on the source reader. A null expression is `none`, and so is a
-- run that uses up its fuel, one layer outside.
use dq_lang.Feeder.State.{Feeder}
use dq_lang.Feeder.Tokens.{check_symbol, check_keyword}
use dq_lang.Parser.Levels.{Front, Parsed, any_symbol, next_op, parse_expr_add}
use dq_lang.Prelude.{
  ℕ, Bool, true, false, ◌&&◌, ◌||◌, Option, none, some, List, [], ◌∷◌, if◌then◌else◌, codes, Bytes,
}

pub data CompareOp : Type 0 where
  compop_none compop_eq compop_ne compop_lt compop_le compop_gt compop_ge : CompareOp

-- The rest of the compiler, as ParseComparison sees it: ParseTypeSpec; the node of `is`; the explicit
-- conversion of `as`; CreateCompareExpr, with the test whether its result is an OCompareExpr; the test
-- for a text literal with its conversion to a slice; and the nodes of a range, in which the operand
-- in the middle is kept and used a second time.
pub record Compares (E : Type 0) (T : Type 0) : Type 0 where
  pub parse_type_spec : Feeder → Feeder × Option T
  pub is_expr : E → T → E
  pub convert_as : T → E → Option E
  pub create_compare : CompareOp → E → E → Option E
  pub is_compare_expr : E → Bool
  pub is_text_literal : E → Bool
  pub convert_to_slice : E → Option E
  pub cached : E → E
  pub cached_load : E → E
  pub range_compare : E → Option E → E → E

abbrev pub CompareOps : Type 0
CompareOps = List (Bytes × CompareOp)

abbrev pub compare_ops : CompareOps
compare_ops =
    (codes "==", compop_eq)
    ∷ (codes "<>", compop_ne)
    ∷ (codes "<=", compop_le)
    ∷ (codes "<", compop_lt)
    ∷ (codes ">=", compop_ge)
    ∷ (codes ">", compop_gt)
    ∷ []

unfoldable pub find_compare : CompareOps → Bool → Feeder → Feeder × CompareOp
unfolding check_symbol
find_compare [] consume f = (f, compop_none)
find_compare ((s, op) ∷ ops) consume f =
    let (g, hit) = check_symbol s consume f in
    let rest = find_compare ops consume g in if hit then (g, op) else rest

unfoldable pub parse_compare_op : Bool → Feeder → Feeder × CompareOp
unfolding find_compare
parse_compare_op consume f = find_compare compare_ops consume f

abbrev pub is_less : CompareOp → Bool
is_less compop_lt = true
is_less compop_le = true
is_less _ = false

abbrev pub is_greater : CompareOp → Bool
is_greater compop_gt = true
is_greater compop_ge = true
is_greater _ = false

unfoldable pub is_range : CompareOp → CompareOp → Bool
is_range op next_op = is_less op && is_less next_op || is_greater op && is_greater next_op

-- The assignments that begin like a comparison.
abbrev pub ambiguous : List Bytes
ambiguous = codes "<<=" ∷ codes ">>=" ∷ []

module _ {E T : Type 0} (front : Front E) (compares : Compares E T) where
  -- What follows an expression that was read; a null expression ends the function.
  abbrev pub then_with : (Feeder → E → Parsed E) → Parsed E → Parsed E
  then_with next none = none
  then_with next (some (f, none)) = some (f, none)
  then_with next (some (f, some e)) = next f e

  abbrev pub or_null : (E → Parsed E) → Feeder → Option E → Parsed E
  or_null next f none = some (f, none)
  or_null next f (some e) = next e

  -- The end of a range, behind its second operator.
  abbrev pub range_end : CompareOp → E → E → Feeder → E → Parsed E
  range_end next_op first middle f right = some (
    f,
    some (
        compares.range_compare first
          (compares.create_compare next_op (compares.cached_load middle) right) middle),
  )

  -- A range behind its first comparison.
  unfoldable pub range_first : ℕ → CompareOp → E → E → Feeder → Parsed E
  unfolding parse_compare_op parse_expr_add
  range_first n next_op first middle f =
      let rest =
        then_with (range_end next_op first middle)
          (parse_expr_add front n (parse_compare_op true f).0) in
      if compares.is_compare_expr first then rest else some (f, some first)

  -- A range behind the operand in the middle.
  abbrev pub range_from : ℕ → CompareOp → CompareOp → E → Feeder → E → Parsed E
  range_from n op next_op left f right =
      or_null (λ first. range_first n next_op first (compares.cached right) f) f
        (compares.create_compare op left (compares.cached right))

  unfoldable pub parse_range : ℕ → CompareOp → CompareOp → E → Feeder → E → Parsed E
  unfolding range_first
  parse_range n op next_op left f right =
      let converted =
        or_null (range_from n op next_op left f) f (compares.convert_to_slice right) in
      let same = range_from n op next_op left f right in
      if compares.is_text_literal right then converted else same

  -- Behind the right operand.
  unfoldable pub after_right : ℕ → CompareOp → E → Feeder → E → Parsed E
  unfolding parse_compare_op is_range parse_range
  after_right n op left f right =
      let (g, next_op) = parse_compare_op false (front.skip_white true f) in
      let range = parse_range n op next_op left g right in
      if is_range op next_op then range else some (g, compares.create_compare op left right)

  abbrev pub with_type : (T → Option E) → Feeder × Option T → Parsed E
  with_type next (f, none) = some (f, none)
  with_type next (f, some t) = some (f, next t)

  -- `is` and `as`, where no comparison stands.
  unfoldable pub after_word : Feeder → E → Parsed E
  unfolding check_keyword
  after_word f left =
      let (g, type_test) = check_keyword (codes "is") true f in
      let (h, cast) = check_keyword (codes "as") true g in
      if type_test
      then with_type (λ t. some (compares.is_expr left t))
          (compares.parse_type_spec (front.skip_white false g))
      else if cast
      then with_type (λ t. compares.convert_as t left)
          (compares.parse_type_spec (front.skip_white false h))
      else some (h, some left)

  -- Behind the look for an operator.
  abbrev pub after_compare_op : ℕ → E → Feeder × CompareOp → Parsed E
  after_compare_op n left (f, compop_none) = after_word f left
  after_compare_op n left (f, op) = then_with (after_right n op left) (parse_expr_add front n f)

  unfoldable pub after_left : ℕ → Feeder → E → Parsed E
  unfolding any_symbol parse_compare_op after_word after_right
  after_left n f left =
      let (g, stop) = any_symbol ambiguous (front.skip_white true f) in
      let rest = after_compare_op n left (parse_compare_op true g) in
      if stop then some (g, some left) else rest

  unfoldable pub parse_comparison : ℕ → Feeder → Parsed E
  unfolding parse_expr_add after_left
  parse_comparison n f = then_with (after_left n) (parse_expr_add front n f)
