-- ===== src/Typing/Binary.antt =====
-- CreateBinExpr and HarmonizeNumericOperands of compiler/ast/dqc_ast.cpp, and the type of an
-- OBinExpr and what OBinExpr::Generate does with it in compiler/ast/expressions.cpp. A type stands
-- behind its aliases; two integer types of one width and signedness are the same here.
use dq_lang.ConstInt.Fold.{
  BinOp, binop_none, binop_add, binop_sub, binop_mul, binop_div, binop_iand, binop_ior, binop_ixor,
  binop_ishl, binop_ishr,
}
use dq_lang.Prelude.{
  ℕ, Bool, true, false, ◌&&◌, ◌||◌, Option, none, some, ltb, leb, ◌==◌, if◌then◌else◌,
}

-- What a pointer points to; the flag says that this is the type char.
pub data Pointee : Type 0 where
  opaque_pointee : Pointee
  typed_pointee : ℕ → Bool → Pointee

-- A type by its kind; `other_kind` stands for the kinds that are not told apart below.
pub data Shape : Type 0 where
  int_kind : ℕ → Bool → Shape
  float_kind : ℕ → Shape
  char_kind wchar_kind enum_kind : Shape
  pointer_kind : Pointee → Shape
  other_kind : ℕ → Shape

pub record Ty : Type 0 where
  pub shape : Shape
  pub is_text_source : Bool
  pub is_string_family : Bool

-- An operand: its type, and the value where it is a literal of the type wchar.
pub record Operand : Type 0 where
  pub type_of : Ty
  pub wchar_literal : Option ℕ

-- The types that are built in, and whether the string functions can be used.
pub record Builtins : Type 0 where
  pub type_char : Ty
  pub type_float : Ty
  pub type_str : Ty
  pub native_uint : Ty
  pub int_type : ℕ → Bool → Ty
  pub has_dyn_string : Bool

-- OBinExpr, with the types of its operands behind their conversions.
pub record Node : Type 0 where
  pub op : BinOp
  pub left : Ty
  pub right : Ty

unfoldable pub is_character : Shape → Bool
is_character char_kind = true
is_character wchar_kind = true
is_character _ = false

unfoldable pub is_c_char_pointer : Shape → Bool
is_c_char_pointer (pointer_kind (typed_pointee t is_char)) = is_char
is_c_char_pointer _ = false

abbrev pub max : ℕ → ℕ → ℕ
max a b = if ltb a b then b else a

-- The cases of HarmonizeNumericOperands behind its guards.
unfoldable pub harmonize_shapes : Builtins → Bool → Ty → Ty → Shape → Shape → Option (Ty × Ty)
harmonize_shapes b force_signed l r (int_kind m s) (int_kind n t) =
    let common = b.int_type (max m n) (force_signed || (s || t)) in some (common, common)
harmonize_shapes b force_signed l r (int_kind m s) (float_kind n) = some (r, r)
harmonize_shapes b force_signed l r (float_kind m) (int_kind n t) = some (l, l)
harmonize_shapes b force_signed l r (float_kind m) (float_kind n) =
    some (if m == n then (l, r) else if ltb n m then (l, l) else (r, r))
harmonize_shapes b force_signed l r _ _ = none

unfoldable pub harmonize_numeric_operands : Builtins → Bool → Ty → Ty → Option (Ty × Ty)
unfolding is_character harmonize_shapes
harmonize_numeric_operands b force_signed l r =
    if is_character l.shape || is_character r.shape
    then none
    else harmonize_shapes b force_signed l r l.shape r.shape

unfoldable pub is_bit_op : BinOp → Bool
is_bit_op binop_iand = true
is_bit_op binop_ior = true
is_bit_op binop_ixor = true
is_bit_op binop_ishl = true
is_bit_op binop_ishr = true
is_bit_op _ = false

unfoldable pub is_shift : BinOp → Bool
is_shift binop_ishl = true
is_shift binop_ishr = true
is_shift _ = false

abbrev pub is_add : BinOp → Bool
is_add binop_add = true
is_add _ = false

abbrev pub is_sub : BinOp → Bool
is_sub binop_sub = true
is_sub _ = false

abbrev pub is_div : BinOp → Bool
is_div binop_div = true
is_div _ = false

abbrev pub harmonized : BinOp → Ty → Ty → Option (Ty × Ty) → Node
harmonized op l r none = record { op = op; left = l; right = r }
harmonized op l r (some (a, b)) = record { op = op; left = a; right = b }

abbrev pub only_harmonized : BinOp → Option (Ty × Ty) → Option Node
only_harmonized op none = none
only_harmonized op (some (a, b)) = some (record { op = op; left = a; right = b })

-- The operators on bits.
unfoldable pub bit_node : Builtins → BinOp → Ty → Ty → Shape → Shape → Option Node
unfolding is_shift harmonize_numeric_operands
bit_node b op l r (int_kind m s) (int_kind n t) = some (
    if is_shift op
    then record { op = op; left = l; right = l }
    else harmonized op l r (harmonize_numeric_operands b false l r))
bit_node b op l r _ _ = none

abbrev pub same_pointee : Pointee → Pointee → Bool
same_pointee (typed_pointee t c) (typed_pointee u d) = t == u
same_pointee _ _ = false

abbrev pub is_typed : Pointee → Bool
is_typed opaque_pointee = false
is_typed (typed_pointee t c) = true

abbrev pub if_some : Bool → Node → Option Node
if_some ok n = if ok then some n else none

-- The other operators, by the kinds of the operands. A pair of one kind that is not numeric comes to
-- the last branch, whose HarmonizeNumericOperands is not asked for its result.
unfoldable pub plain_node : Builtins → BinOp → Ty → Ty → Shape → Shape → Option Node
unfolding harmonize_numeric_operands
plain_node b op l r (pointer_kind p) (pointer_kind q) =
    if_some (is_sub op && same_pointee p q) (record { op = op; left = l; right = r })
plain_node b op l r (pointer_kind p) (int_kind n t) =
    if_some ((is_add op || is_sub op) && is_typed p) (record { op = op; left = l; right = r })
plain_node b op l r (int_kind m s) (int_kind n t) = some (
    if is_div op
    then record { op = op; left = b.type_float; right = b.type_float }
    else harmonized op l r (harmonize_numeric_operands b (is_sub op) l r))
plain_node b op l r (float_kind m) (float_kind n) =
    some (harmonized op l r (harmonize_numeric_operands b false l r))
plain_node b op l r (other_kind j) (other_kind k) =
    if j == k
    then some (harmonized op l r (harmonize_numeric_operands b false l r))
    else only_harmonized op (harmonize_numeric_operands b false l r)
plain_node b op l r _ _ = only_harmonized op (harmonize_numeric_operands b false l r)

unfoldable pub is_enum : Shape → Bool
is_enum enum_kind = true
is_enum _ = false

unfoldable pub is_concat_disambiguator : Ty → Bool
unfolding is_c_char_pointer
is_concat_disambiguator t = t.is_string_family || is_c_char_pointer t.shape

abbrev pub small_literal : Option ℕ → Bool
small_literal none = false
small_literal (some v) = leb v 255

-- A wchar literal below 256 becomes a char next to a text.
unfoldable pub char_for : Builtins → BinOp → Operand → Ty → Ty
unfolding is_concat_disambiguator
char_for b op a beside =
    if is_add op && small_literal a.wchar_literal && is_concat_disambiguator beside
    then b.type_char
    else a.type_of

unfoldable pub is_concat : BinOp → Ty → Ty → Bool
unfolding is_concat_disambiguator
is_concat op l r =
    is_add op
    && l.is_text_source
    && r.is_text_source
    && (is_concat_disambiguator l || is_concat_disambiguator r)

-- Behind the guards; the types are those of the operands as they were given.
unfoldable pub typed_node : Builtins → BinOp → Ty → Ty → Option Node
unfolding is_character is_bit_op bit_node plain_node
typed_node b op l r =
    if is_character l.shape || is_character r.shape
    then none
    else if is_bit_op op
    then bit_node b op l r l.shape r.shape
    else plain_node b op l r l.shape r.shape

unfoldable pub create_bin_expr : Builtins → BinOp → Operand → Operand → Option Node
unfolding is_enum char_for is_concat typed_node
create_bin_expr b op l r =
    let newleft = char_for b op l r.type_of in
    let newright = char_for b op r newleft in
    if is_enum l.type_of.shape || is_enum r.type_of.shape
    then none
    else if is_concat op newleft newright
    then if_some b.has_dyn_string (record { op = op; left = newleft; right = newright })
    else typed_node b op l.type_of r.type_of

-- The constructor of OBinExpr.
unfoldable pub int_node_type : Builtins → BinOp → Ty → Ty → Shape → Shape → Ty
int_node_type b op l r (int_kind m s) (float_kind n) = r
int_node_type b op l r (int_kind m s) _ = if is_div op then b.type_float else l
int_node_type b op l r _ _ = l

unfoldable pub is_pointer_difference : BinOp → Shape → Shape → Bool
is_pointer_difference binop_sub (pointer_kind p) (pointer_kind q) = true
is_pointer_difference _ _ _ = false

unfoldable pub node_type : Builtins → Node → Ty
unfolding is_pointer_difference is_concat int_node_type
node_type b n =
    if is_pointer_difference n.op n.left.shape n.right.shape
    then b.native_uint
    else if is_concat n.op n.left n.right
    then b.type_str
    else int_node_type b n.op n.left n.right n.left.shape n.right.shape

abbrev pub int_instruction : BinOp → Bool
int_instruction binop_none = false
int_instruction binop_div = false
int_instruction _ = true

abbrev pub float_instruction : BinOp → Bool
float_instruction binop_add = true
float_instruction binop_sub = true
float_instruction binop_mul = true
float_instruction binop_div = true
float_instruction _ = false

-- OBinExpr::Generate by the kind of the expression's type: whether it makes an instruction, or
-- throws a logic_error.
unfoldable pub has_instruction : BinOp → Shape → Bool
has_instruction op (int_kind m s) = int_instruction op
has_instruction op (float_kind m) = float_instruction op
has_instruction op (pointer_kind p) = is_add op || is_sub op
has_instruction op _ = false

unfoldable pub generates : Builtins → Node → Bool
unfolding is_pointer_difference is_concat node_type has_instruction
generates b n =
    is_concat n.op n.left n.right
    || is_pointer_difference n.op n.left.shape n.right.shape
    || has_instruction n.op (node_type b n).shape
