-- ===== src/Tests/Typing.antt =====
-- The types of binary expressions: compiler/ast/dqc_ast.cpp.
use dq_lang.ConstInt.Fold.{binop_add, binop_sub, binop_irem}
use dq_lang.Typing.Binary.{
  Ty, Builtins, is_character, is_c_char_pointer, harmonize_shapes, harmonize_numeric_operands,
  is_bit_op, plain_node, is_enum, is_concat_disambiguator, char_for, is_concat, typed_node,
  create_bin_expr, node_type, generates, char_kind, other_kind,
}
use dq_lang.Typing.Laws.{
  NumericBuiltins, float_ty, int_ty, ty_of, operand_of, result_type, node_of,
  create_bin_expr-result_type, is_word_op, create_bin_expr-generates, other_ty, other_operand,
  create_bin_expr-other_kind, num_int, num_float,
}
use dq_lang.Prelude.{◌≡◌, refl, true, false, not, ◌&&◌, ◌||◌, none, some, arith, if◌then◌else◌}

abbrev text_ty : Ty
text_ty = record { shape = other_kind 20; is_text_source = true; is_string_family = true }

abbrev builtins : Builtins
builtins = record {
  type_char = record { shape = char_kind; is_text_source = true; is_string_family = false };
  type_float = float_ty 64;
  type_str = text_ty;
  native_uint = int_ty 64 false;
  int_type = int_ty;
  has_dyn_string = true;
}

numeric : NumericBuiltins builtins
numeric = record { ints = λ m s. refl; float_bits = 64; floats = refl }

create_bin_expr-result_type_example :
    let t = ty_of (result_type numeric.float_bits binop_sub (num_int 8 false) (num_int 16 false)) in
    (create_bin_expr builtins binop_sub
        (operand_of (num_int 8 false))
        (operand_of (num_int 16 false))
      ≡ (if is_bit_op binop_sub && (false || false) then none else some (node_of binop_sub t)))
    × (node_type builtins (node_of binop_sub t) ≡ t)
create_bin_expr-result_type_example =
    create_bin_expr-result_type builtins numeric binop_sub (num_int 8 false) (num_int 16 false)

-- A remainder of a float is accepted.
accepted :
    create_bin_expr builtins binop_irem (operand_of (num_float 64)) (operand_of (num_int 32 true))
    ≡ some (node_of binop_irem (float_ty 64))
unfolding create_bin_expr typed_node plain_node harmonize_numeric_operands harmonize_shapes
    is_character is_bit_op is_enum char_for is_concat is_concat_disambiguator is_c_char_pointer
accepted = refl

create_bin_expr-generates_example :
    generates builtins (node_of binop_irem (float_ty 64))
    ≡ not (is_word_op binop_irem && (true || false))
create_bin_expr-generates_example =
    create_bin_expr-generates builtins numeric binop_irem (num_float 64) (num_int 32 true)
      (node_of binop_irem (float_ty 64)) (ground arith) accepted

create_bin_expr-other_kind_example :
    (create_bin_expr builtins binop_add (other_operand 3 false) (other_operand 3 false)
      ≡ some (node_of binop_add (other_ty 3 false)))
    × (generates builtins (node_of binop_add (other_ty 3 false)) ≡ false)
create_bin_expr-other_kind_example =
    create_bin_expr-other_kind builtins binop_add 3 false (unfold is_bit_op in refl)
