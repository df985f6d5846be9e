-- ===== src/Typing/Laws.antt =====
-- The types of expressions on numbers.
use dq_lang.ConstInt.Fold.{BinOp, binop_none, binop_idiv, binop_irem, binop_imod}
use dq_lang.Typing.Binary.{
  Ty, Operand, Builtins, Node, is_character, is_c_char_pointer, max, harmonize_shapes,
  harmonize_numeric_operands, is_bit_op, is_shift, is_sub, is_div, bit_node, plain_node, is_enum,
  is_concat_disambiguator, char_for, is_concat, typed_node, create_bin_expr, int_node_type,
  is_pointer_difference, node_type, int_kind, float_kind, has_instruction, generates, other_kind,
}
use dq_lang.Prelude.{
  ℕ, ◌≡◌, Bool, true, false, not, ◌&&◌, ◌||◌, none, some, if◌then◌else◌, arith, sym, ◌∙◌, ◌≢◌,
}

-- A numeric type: an integer with its width and signedness, or a float with its width.
pub data Num : Type 0 where
  num_int : ℕ → Bool → Num
  num_float : ℕ → Num

abbrev pub float_ty : ℕ → Ty
float_ty m = record { shape = float_kind m; is_text_source = false; is_string_family = false }

abbrev pub int_ty : ℕ → Bool → Ty
int_ty m s = record { shape = int_kind m s; is_text_source = false; is_string_family = false }

abbrev pub ty_of : Num → Ty
ty_of (num_int m s) = int_ty m s
ty_of (num_float m) = float_ty m

abbrev pub operand_of : Num → Operand
operand_of n = record { type_of = ty_of n; wchar_literal = none }

-- The built-in types are what their names say.
pub record NumericBuiltins (b : Builtins) : Type 0 where
  pub ints : (m : ℕ) (s : Bool) → b.int_type m s ≡ int_ty m s
  pub float_bits : ℕ
  pub floats : b.type_float ≡ float_ty float_bits

abbrev pub is_float : Num → Bool
is_float (num_int m s) = false
is_float (num_float m) = true

-- The common type of two numbers: the wider one, signed if one of them is; a float next to an
-- integer; the wider float.
unfoldable pub common_type : Num → Num → Num
common_type (num_int m s) (num_int n t) = num_int (max m n) (s || t)
common_type (num_int m s) (num_float n) = num_float n
common_type (num_float m) (num_int n t) = num_float m
common_type (num_float m) (num_float n) = num_float (max m n)

abbrev pub signed : Num → Num
signed (num_int m s) = num_int m true
signed (num_float m) = num_float m

-- The type of an expression: `/` on integers gives a float, `-` on integers a signed integer, and a
-- shift the type of its left operand.
unfoldable pub result_type : ℕ → BinOp → Num → Num → Num
unfolding common_type is_shift
result_type float_bits op l r =
    if is_shift op
    then l
    else if is_div op && not (is_float l || is_float r)
    then num_float float_bits
    else if is_sub op
    then signed (common_type l r)
    else common_type l r

abbrev pub node_of : BinOp → Ty → Node
node_of op t = record { op = op; left = t; right = t }

-- On two numbers CreateBinExpr refuses an operator on bits next to a float, and nothing else: `div`,
-- `rem` and `mod`, which are for two integers, are accepted next to a float too. Where it accepts, both
-- operands are converted to one type, which is that of the expression: the left operand's for a shift,
-- the built-in float for `/` on integers, a signed one for `-` on integers, and else the common type.
pub create_bin_expr-result_type :
    (b : Builtins) (nb : NumericBuiltins b) (op : BinOp) (l r : Num)
    → let t = ty_of (result_type nb.float_bits op l r) in
      (create_bin_expr b op (operand_of l) (operand_of r)
        ≡ (if is_bit_op op && (is_float l || is_float r) then none else some (node_of op t)))
      × (node_type b (node_of op t) ≡ t)
unfolding create_bin_expr typed_node bit_node plain_node harmonize_numeric_operands harmonize_shapes
    is_character is_bit_op is_shift is_enum char_for is_concat is_concat_disambiguator
    is_c_char_pointer node_type is_pointer_difference int_node_type result_type common_type
create_bin_expr-result_type b nb op (num_int m s) (num_int n t) =
    ground (arith, nb.floats, nb.ints (max m n) (s || t), nb.ints (max m n) true)
create_bin_expr-result_type b nb op (num_int m s) (num_float n) = ground arith
create_bin_expr-result_type b nb op (num_float m) (num_int n t) = ground arith
create_bin_expr-result_type b nb op (num_float m) (num_float n) = ground arith

abbrev pub is_word_op : BinOp → Bool
is_word_op binop_idiv = true
is_word_op binop_irem = true
is_word_op binop_imod = true
is_word_op _ = false

generates_node :
    (b : Builtins) (op : BinOp) (l r : Num) (n : Node) (float_bits : ℕ)
    → op ≢ binop_none
    → (if is_bit_op op && (is_float l || is_float r)
        then none
        else some (node_of op (ty_of (result_type float_bits op l r))))
      ≡ some n
    → generates b n ≡ not (is_word_op op && (is_float l || is_float r))
unfolding generates node_type has_instruction is_concat is_pointer_difference int_node_type
    is_concat_disambiguator is_c_char_pointer result_type common_type is_shift is_bit_op
generates_node b op (num_int m s) (num_int n t) x float_bits some_op h = ground arith
generates_node b op (num_int m s) (num_float n) x float_bits some_op h = ground arith
generates_node b op (num_float m) (num_int n t) x float_bits some_op h = ground arith
generates_node b op (num_float m) (num_float n) x float_bits some_op h = ground arith

-- An expression on two numbers that CreateBinExpr accepts is one that OBinExpr::Generate has an
-- instruction for, unless it is `div`, `rem` or `mod` next to a float: these are accepted, and
-- Generate throws.
pub create_bin_expr-generates :
    (b : Builtins) (nb : NumericBuiltins b) (op : BinOp) (l r : Num) (n : Node)
    → op ≢ binop_none
    → create_bin_expr b op (operand_of l) (operand_of r) ≡ some n
    → generates b n ≡ not (is_word_op op && (is_float l || is_float r))
create_bin_expr-generates b nb op l r n some_op h =
    generates_node b op l r n nb.float_bits some_op
      (sym (create_bin_expr-result_type b nb op l r).0 ∙ h)

abbrev pub other_ty : ℕ → Bool → Ty
other_ty k string_family = record {
  shape = other_kind k;
  is_text_source = false;
  is_string_family = string_family;
}

abbrev pub other_operand : ℕ → Bool → Operand
other_operand k string_family = record { type_of = other_ty k string_family; wchar_literal = none }

-- Two operands of one type that is no integer, float, pointer, enum, character or source of a text,
-- such as two of type bool, are accepted by CreateBinExpr with every operator that is not on bits, and
-- Generate throws.
pub create_bin_expr-other_kind :
    (b : Builtins) (op : BinOp) (k : ℕ) (string_family : Bool)
    → is_bit_op op ≡ false
    → (create_bin_expr b op (other_operand k string_family) (other_operand k string_family)
        ≡ some (node_of op (other_ty k string_family)))
      × (generates b (node_of op (other_ty k string_family)) ≡ false)
unfolding create_bin_expr typed_node plain_node harmonize_numeric_operands harmonize_shapes
    is_character is_bit_op is_enum char_for is_concat is_concat_disambiguator is_c_char_pointer
    generates node_type is_pointer_difference int_node_type has_instruction
create_bin_expr-other_kind b op k string_family h = ground arith
