-- ===== src/ConstInt/Fold.antt =====
-- OValueInt::CalculateConstant: the value of a constant integer expression in a type. A signed
-- overflow of `+`, `-`, `*` and the unary `-` on int64_t is taken to wrap around.
use Prim.Native.Nat.{bit_and, bit_or, bit_xor}
use dq_lang.ConstInt.Normal.{IntType, convert_constant}
use dq_lang.ConstInt.Words.{
  Computed, value, trap, add64, sub64, mul64, neg64, not64, is_negative, magnitude, signed_div,
  signed_rem, unsigned_div, unsigned_rem, shift_left, shift_right,
}
use dq_lang.Prelude.{ℕ, Bool, true, false, Option, none, some, if◌then◌else◌}

pub data BinOp : Type 0 where
  binop_none binop_add binop_sub binop_mul binop_div binop_idiv binop_irem binop_imod : BinOp
  binop_iand binop_ior binop_ixor binop_ishl binop_ishr : BinOp

-- What the symbol of an OLValueVar is.
pub data Symbol : Type 0 where
  not_constant not_int : Symbol
  int_constant : ℕ → Symbol

-- The expressions that CalculateConstant tells apart. `outside` is a conversion from a boolean or
-- floating-point expression, or a rounding: what its evaluation gave, as an int64_t.
pub data Expr : Type 0 where
  int_lit : ℕ → Expr
  neg bin_not : Expr → Expr
  type_conv : IntType → Expr → Expr
  outside : Option ℕ → Expr
  lvalue_var : Symbol → Expr
  bin : BinOp → Expr → Expr → Expr
  other : Expr

-- The errors of CalculateConstant, without their parameters.
pub data FoldError : Type 0 where
  nonconst_sym type_expected op_unhandled int_constexpr from_outside : FoldError

pub data Outcome : Type 0 where
  done : ℕ → Outcome
  refused : FoldError → Outcome
  undefined : Outcome

infixl 5 ◌>>=◌
abbrev pub ◌>>=◌ : Outcome → (ℕ → Outcome) → Outcome
done v >>= f = f v
refused e >>= f = refused e
undefined >>= f = undefined

abbrev pub computed : Computed → Outcome
computed (value v) = done v
computed trap = undefined

-- `mod`: a negative remainder is moved up by the magnitude of the divisor.
abbrev pub adjust : ℕ → ℕ → ℕ
adjust right rem = if is_negative rem then add64 rem (magnitude right) else rem

-- The operation on the values of both sides, before ConvertConstant.
unfoldable pub fold_bin : Bool → BinOp → ℕ → ℕ → Outcome
unfolding signed_div signed_rem unsigned_div unsigned_rem shift_left shift_right
fold_bin issigned binop_add a b = done (add64 a b)
fold_bin issigned binop_sub a b = done (sub64 a b)
fold_bin issigned binop_mul a b = done (mul64 a b)
fold_bin true binop_idiv a b = computed (signed_div a b)
fold_bin true binop_irem a b = computed (signed_rem a b)
fold_bin true binop_imod a b = computed (signed_rem a b) >>= λ r. done (adjust b r)
fold_bin false binop_idiv a b = computed (unsigned_div a b)
fold_bin false binop_irem a b = computed (unsigned_rem a b)
fold_bin false binop_imod a b = computed (unsigned_rem a b)
fold_bin issigned binop_iand a b = done (bit_and a b)
fold_bin issigned binop_ior a b = done (bit_or a b)
fold_bin issigned binop_ixor a b = done (bit_xor a b)
fold_bin issigned binop_ishl a b = computed (shift_left a b)
fold_bin issigned binop_ishr a b = computed (shift_right a b)
fold_bin issigned binop_none a b = refused op_unhandled
fold_bin issigned binop_div a b = refused op_unhandled

abbrev pub outside_value : Option ℕ → Outcome
outside_value none = refused from_outside
outside_value (some v) = done v

abbrev pub symbol_value : Symbol → Outcome
symbol_value not_constant = refused nonconst_sym
symbol_value not_int = refused type_expected
symbol_value (int_constant v) = done v

unfoldable pub calculate_constant : IntType → Expr → Outcome
unfolding fold_bin convert_constant
calculate_constant t (int_lit v) = done (convert_constant t v)
calculate_constant t (neg e) = do v ← calculate_constant t e; done (convert_constant t (neg64 v))
calculate_constant t (bin_not e) = do
  v ← calculate_constant t e
  done (convert_constant t (not64 v))
calculate_constant t (type_conv source e) = do
  v ← calculate_constant source e
  done (convert_constant t v)
calculate_constant t (outside o) = do v ← outside_value o; done (convert_constant t v)
calculate_constant t (lvalue_var s) = do v ← symbol_value s; done (convert_constant t v)
calculate_constant t (bin op l r) = do
  a ← calculate_constant t l
  b ← calculate_constant t r
  v ← fold_bin t.issigned op a b
  done (convert_constant t v)
calculate_constant t other = refused int_constexpr
