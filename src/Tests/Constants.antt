-- ===== src/Tests/Constants.antt =====
-- Integer constants: compiler/types/otype_int.cpp.
use dq_lang.ConstInt.DivLaws.{IsEuclidean, fold_imod-IsEuclidean, fold_ishr_lem}
use dq_lang.ConstInt.Fold.{
  binop_add, binop_mul, binop_imod, binop_ishr, int_lit, neg, bin, Expr, done, fold_bin,
  calculate_constant,
}
use dq_lang.ConstInt.FoldLaws.{whole, calculate_constant-whole}
use dq_lang.ConstInt.Normal.{IntType, normalize_constant, convert_constant}
use dq_lang.ConstInt.NormalLaws.{w8}
use dq_lang.ConstInt.Words.{word, half, add64, mul64, neg64}
use dq_lang.Prelude.{◌↔◌, ◌⊎◌, ℕ, ◌-◌, ◌/◌, ◌^◌, ◌<◌, ◌≡◌, refl, true, false, arith}

abbrev int8 : IntType
int8 = record { bitlength = 8; issigned = true }

-- -(100 + 100) * 3 on int8 is -88.
abbrev expr : Expr
expr = bin binop_mul (neg (bin binop_add (int_lit 100) (int_lit 100))) (int_lit 3)

calculate_constant-expr : calculate_constant int8 expr ≡ done (word - 88)
unfolding calculate_constant fold_bin convert_constant mul64 neg64 add64
calculate_constant-expr = refl

calculate_constant-whole_example :
    calculate_constant int8 expr ≡ done (normalize_constant int8 (whole expr))
calculate_constant-whole_example =
    calculate_constant-whole int8 expr (w8 refl) (tt, (tt, omega arith, omega arith), omega arith)

-- -7 mod 3
fold_imod-IsEuclidean_example :
    (q : ℕ) × (r : ℕ) × (fold_bin true binop_imod (word - 7) 3 ≡ done r)
    × IsEuclidean (word - 7) 3 q r
fold_imod-IsEuclidean_example =
    fold_imod-IsEuclidean (word - 7) 3 (omega arith) (omega arith) (omega arith) (ground arith)

fold_ishr_lem_example :
    (fold_bin false binop_ishr half 1 ≡ done (half / 2 ^ 1)) ↔ ((half < half) ⊎ ◌≡◌ {A = ℕ} 1 0)
fold_ishr_lem_example = fold_ishr_lem half 1 (omega arith) (omega arith)
