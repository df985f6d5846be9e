-- ===== src/Parser/Levels.antt =====
-- ParseBinOpLevel, the levels from ParseExprAdd to ParseExprShift, and ParseExprUnary, on the source
-- reader. A null expression is `none`, and so is a run that uses up its fuel, one layer outside.
use dq_lang.ConstInt.Fold.{
  BinOp, binop_add, binop_sub, binop_mul, binop_div, binop_idiv, binop_irem, binop_imod, binop_iand,
  binop_ior, binop_ixor, binop_ishl, binop_ishr,
}
use dq_lang.Feeder.State.{Feeder}
use dq_lang.Feeder.Scan.{}
use dq_lang.Feeder.Tokens.{check_symbol, is_letter, check_keyword}
use dq_lang.Prelude.{
  ℕ, zero, suc, Bool, true, false, Option, none, some, List, [], ◌∷◌, if◌then◌else◌, codes, Bytes,
}

abbrev pub Parsed : Type 0 → Type 0
Parsed E = Option (Feeder × Option E)

-- The rest of the compiler, as these functions see it: SkipWhite, with its argument, and Eof of the
-- preprocessor, which follows directives and includes; ParseExprPostfix; the operand of an
-- address-of with the node for it; CreateBinExpr, whose right operand may be null; and the nodes of
-- the unary operators.
pub record Front (E : Type 0) : Type 0 where
  pub skip_white : Bool → Feeder → Feeder
  pub eof : Feeder → Bool
  pub parse_postfix : Feeder → Feeder × Option E
  pub parse_address : Feeder → Feeder × Option E
  pub create_bin : BinOp → E → Option E → Option E
  pub neg : E → E
  pub bin_not : E → E

abbrev pub Ops : Type 0
Ops = List (Bytes × BinOp)

-- The symbols of assignments that begin like an operator.
abbrev pub terminators : List Bytes
terminators =
    codes "+="
    ∷ codes "-="
    ∷ codes "++"
    ∷ codes "--"
    ∷ codes "*="
    ∷ codes "/="
    ∷ codes "<<="
    ∷ codes ">>="
    ∷ codes "&="
    ∷ codes "|="
    ∷ []

-- A chain of CheckSymbol(…, false).
unfoldable pub any_symbol : List Bytes → Feeder → Feeder × Bool
unfolding check_symbol
any_symbol [] f = (f, false)
any_symbol (s ∷ ss) f =
    let (g, hit) = check_symbol s false f in
    let rest = any_symbol ss g in if hit then (g, true) else rest

abbrev pub is_word : Bytes → Bool
is_word [] = false
is_word (c ∷ cs) = is_letter c

abbrev pub check_op : Bytes → Feeder → Feeder × Bool
check_op s f = if is_word s then check_keyword s true f else check_symbol s true f

-- The loop over the operators of a level.
unfoldable pub find_op : Ops → Feeder → Feeder × Option BinOp
unfolding is_letter check_keyword check_symbol
find_op [] f = (f, none)
find_op ((s, op) ∷ ops) f =
    let (g, hit) = check_op s f in let rest = find_op ops g in if hit then (g, some op) else rest

abbrev pub shift_ops : Ops
shift_ops = (codes "<<", binop_ishl) ∷ (codes ">>", binop_ishr) ∷ []

abbrev pub bin_and_ops : Ops
bin_and_ops = (codes "&", binop_iand) ∷ []

abbrev pub bin_or_ops : Ops
bin_or_ops = (codes "|", binop_ior) ∷ (codes "xor", binop_ixor) ∷ []

abbrev pub div_ops : Ops
div_ops =
    (codes "/", binop_div)
    ∷ (codes "div", binop_idiv)
    ∷ (codes "rem", binop_irem)
    ∷ (codes "mod", binop_imod)
    ∷ []

abbrev pub mul_ops : Ops
mul_ops = (codes "*", binop_mul) ∷ []

abbrev pub add_ops : Ops
add_ops = (codes "+", binop_add) ∷ (codes "-", binop_sub) ∷ []

module _ {E : Type 0} (front : Front E) where
  -- The look for an operator behind an operand; the place is returned with it.
  unfoldable pub next_op : Ops → Feeder → Feeder × Option BinOp
  unfolding any_symbol find_op
  next_op ops f =
      let (g, stop) = any_symbol terminators (front.skip_white true f) in
      if stop then (g, none) else find_op ops g

  abbrev pub after_create : (Feeder → E → Parsed E) → Feeder → Option E → Parsed E
  after_create again f none = some (f, none)
  after_create again f (some e) = again f e

  -- The right operand of an operator that was found.
  abbrev pub with_right : (Feeder → E → Parsed E) → BinOp → E → Parsed E → Parsed E
  with_right again op left none = none
  with_right again op left (some (f, right)) = after_create again f (front.create_bin op left right)

  -- A round behind the look for an operator.
  abbrev pub after_op :
      (Feeder → E → Parsed E) → (Feeder → Parsed E) → E → Feeder × Option BinOp → Parsed E
  after_op again parse_next left (g, none) = some (g, some left)
  after_op again parse_next left (g, some op) = with_right again op left (parse_next g)

  -- The loop of ParseBinOpLevel.
  unfoldable pub level_loop : ℕ → Ops → (Feeder → Parsed E) → Feeder → E → Parsed E
  unfolding next_op
  level_loop zero ops parse_next f left = none
  level_loop (suc n) ops parse_next f left =
      let more = after_op (level_loop n ops parse_next) parse_next left (next_op ops f) in
      if front.eof f then some (f, some left) else more

  abbrev pub from_left : (Feeder → E → Parsed E) → Parsed E → Parsed E
  from_left loop none = none
  from_left loop (some (f, none)) = some (f, none)
  from_left loop (some (f, some left)) = loop f left

  unfoldable pub parse_bin_op_level : ℕ → Ops → (Feeder → Parsed E) → Feeder → Parsed E
  unfolding level_loop
  parse_bin_op_level n ops parse_next f =
      from_left (level_loop n ops parse_next) (parse_next (front.skip_white false f))

  abbrev pub with_node : (E → E) → Parsed E → Parsed E
  with_node node none = none
  with_node node (some (f, none)) = some (f, none)
  with_node node (some (f, some e)) = some (f, some (node e))

  unfoldable pub parse_expr_unary : ℕ → Feeder → Parsed E
  unfolding check_symbol
  parse_expr_unary zero f = none
  parse_expr_unary (suc n) f =
      let (g, address) = check_symbol (codes "%") true (front.skip_white false f) in
      let (h, minus) = check_symbol (codes "-") true g in
      let (k, tilde) = check_symbol (codes "~") true h in
      let negated = with_node front.neg (parse_expr_unary n h) in
      let inverted = with_node front.bin_not (parse_expr_unary n k) in
      if address
      then some (front.parse_address g)
      else if minus
      then negated
      else if tilde
      then inverted
      else some (front.parse_postfix k)

  -- The levels from a list on down to the unary operators, each with its operators.
  unfoldable pub parse_levels : ℕ → List Ops → Feeder → Parsed E
  unfolding parse_bin_op_level parse_expr_unary
  parse_levels n [] f = parse_expr_unary n f
  parse_levels n (ops ∷ tighter) f = parse_bin_op_level n ops (parse_levels n tighter) f

  -- ParseExprAdd and the levels below it, the loosest operators first.
  unfoldable pub parse_expr_add : ℕ → Feeder → Parsed E
  unfolding parse_levels
  parse_expr_add n f =
      parse_levels n (add_ops ∷ mul_ops ∷ div_ops ∷ bin_or_ops ∷ bin_and_ops ∷ shift_ops ∷ []) f
