-- ===== src/Parser/Print.antt =====
-- Expressions as they are written without parentheses: the operands, the operators with symbols, and
-- a blank between two of them.
use dq_lang.ConstInt.Fold.{
  BinOp, binop_add, binop_sub, binop_mul, binop_div, binop_iand, binop_ior, binop_ishl, binop_ishr,
}
use dq_lang.Feeder.Scan.{starts_with}
use dq_lang.Parser.Levels.{
  Ops, terminators, shift_ops, bin_and_ops, bin_or_ops, div_ops, mul_ops, add_ops,
}
use dq_lang.Prelude.{
  ℕ, zero, suc, ◌+◌, ◌-◌, ◌≤◌, ◌<◌, ◌≡◌, refl, Bool, true, false, List, [], ◌∷◌, ◌++◌, arith, ◌==◌,
  if◌then◌else◌, codes, Bytes,
}

pub data Sym : Type 0 where
  plus minus times slash bar amp shl shr : Sym

abbrev pub sym_text : Sym → Bytes
sym_text plus = codes "+"
sym_text minus = codes "-"
sym_text times = codes "*"
sym_text slash = codes "/"
sym_text bar = codes "|"
sym_text amp = codes "&"
sym_text shl = codes "<<"
sym_text shr = codes ">>"

abbrev pub sym_op : Sym → BinOp
sym_op plus = binop_add
sym_op minus = binop_sub
sym_op times = binop_mul
sym_op slash = binop_div
sym_op bar = binop_ior
sym_op amp = binop_iand
sym_op shl = binop_ishl
sym_op shr = binop_ishr

-- The comparisons.
pub data Cmp : Type 0 where
  eq ne lt le gt ge : Cmp

abbrev pub cmp_text : Cmp → Bytes
cmp_text eq = codes "=="
cmp_text ne = codes "<>"
cmp_text lt = codes "<"
cmp_text le = codes "<="
cmp_text gt = codes ">"
cmp_text ge = codes ">="

-- The looser an operator the higher its rank.
abbrev pub rank : Sym → ℕ
rank plus = 6
rank minus = 6
rank times = 5
rank slash = 4
rank bar = 3
rank amp = 2
rank shl = 1
rank shr = 1

-- An operand is a number; `minus_of` and `tilde_of` are the unary operators.
pub data Tree : Type 0 where
  operand : ℕ → Tree
  node : Sym → Tree → Tree → Tree
  minus_of tilde_of : Tree → Tree

unfoldable pub size : Tree → ℕ
size (operand x) = 1
size (node o l r) = size l + size r + 1
size (minus_of t) = size t + 1
size (tilde_of t) = size t + 1

-- A tree whose operators are of at most this rank can be written without parentheses: below an
-- operator the left operand may have operators of the same rank, the right one only tighter ones.
unfoldable pub Fits : ℕ → Tree → Type 0
Fits j (operand x) = Unit
Fits j (node o l r) = (rank o ≤ j) × Fits (rank o) l × Fits (rank o - 1) r
Fits j (minus_of t) = Fits 0 t
Fits j (tilde_of t) = Fits 0 t

-- The text, with `tail` behind it.
unfoldable pub print : (ℕ → Bytes) → Tree → Bytes → Bytes
print name (operand x) tail = name x ++ tail
print name (node o l r) tail = print name l (32 ∷ (sym_text o ++ 32 ∷ print name r tail))
print name (minus_of t) tail = b'-' ∷ 32 ∷ print name t tail
print name (tilde_of t) tail = b'~' ∷ 32 ∷ print name t tail

unfoldable pub ops_at : ℕ → Ops
ops_at j =
    if j == 1
    then shift_ops
    else if j == 2
    then bin_and_ops
    else if j == 3
    then bin_or_ops
    else if j == 4
    then div_ops
    else if j == 5
    then mul_ops
    else if j == 6
    then add_ops
    else []

abbrev pub levels : ℕ → List Ops
levels zero = []
levels (suc j) = ops_at (suc j) ∷ levels j

-- No operator of the list stands at the start of a text, nor does any symbol.
unfoldable pub no_op : Ops → Bytes → Bool
no_op [] text = true
no_op ((s, op) ∷ ops) text = let rest = no_op ops text in if starts_with s text then false else rest

unfoldable pub no_symbol : List Bytes → Bytes → Bool
no_symbol [] text = true
no_symbol (s ∷ ss) text = let rest = no_symbol ss text in if starts_with s text then false else rest

pub no_terminator :
    (o : Sym) (rest : Bytes) → no_symbol terminators (sym_text o ++ 32 ∷ rest) ≡ true
unfolding no_symbol starts_with
no_terminator plus rest = refl
no_terminator minus rest = refl
no_terminator times rest = refl
no_terminator slash rest = refl
no_terminator bar rest = refl
no_terminator amp rest = refl
no_terminator shl rest = refl
no_terminator shr rest = refl

pub no_op-other :
    (o : Sym) (rest : Bytes) (j : ℕ)
    → j < rank o
    → no_op (ops_at j) (sym_text o ++ 32 ∷ rest) ≡ true
unfolding no_op starts_with ops_at
no_op-other plus rest j h = ground arith
no_op-other minus rest j h = ground arith
no_op-other times rest j h = ground arith
no_op-other slash rest j h = ground arith
no_op-other bar rest j h = ground arith
no_op-other amp rest j h = ground arith
no_op-other shl rest j h = ground arith
no_op-other shr rest j h = ground arith

pub no_op-close : (tail : Bytes) (j : ℕ) → no_op (ops_at j) (b';' ∷ tail) ≡ true
unfolding no_op starts_with ops_at
no_op-close tail j = ground arith

pub no_op-comparison :
    (o : Cmp) (rest : Bytes) (j : ℕ) → no_op (ops_at j) (cmp_text o ++ 32 ∷ rest) ≡ true
unfolding no_op starts_with ops_at
no_op-comparison eq rest j = ground arith
no_op-comparison ne rest j = ground arith
no_op-comparison lt rest j = ground arith
no_op-comparison le rest j = ground arith
no_op-comparison gt rest j = ground arith
no_op-comparison ge rest j = ground arith

pub no_terminator-comparison :
    (o : Cmp) (rest : Bytes) → no_symbol terminators (cmp_text o ++ 32 ∷ rest) ≡ true
unfolding no_symbol starts_with
no_terminator-comparison eq rest = refl
no_terminator-comparison ne rest = refl
no_terminator-comparison lt rest = refl
no_terminator-comparison le rest = refl
no_terminator-comparison gt rest = refl
no_terminator-comparison ge rest = refl
