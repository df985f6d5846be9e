-- ===== src/ConstInt/FoldLaws.antt =====
-- Constant expressions against evaluation on whole 64-bit words, and against division.
use dq_lang.ConstInt.Fold.{
  BinOp, binop_add, binop_sub, binop_mul, Expr, int_lit, neg, bin_not, bin, done, fold_bin,
  calculate_constant,
}
use dq_lang.ConstInt.Normal.{IntType, normalize_constant, convert_constant}
use dq_lang.ConstInt.NormalLaws.{IsWidth, normalize_constant_lem, normalize_constant_congruent}
use dq_lang.ConstInt.Words.{word, add64, sub64, mul64, neg64, not64}
use dq_lang.Prelude.{ℕ, ◌<◌, ◌≡◌, refl, ◌∙◌, ap, Bool, arith}
use dq_lang.ConstInt.LowBits.{SameLow, add64_low, sub64_low, mul64_low, neg64_low, not64_low}

abbrev pub IsRingOp : BinOp → Type 0
IsRingOp binop_add = Unit
IsRingOp binop_sub = Unit
IsRingOp binop_mul = Unit
IsRingOp _ = ⊥

-- Expressions over `+`, `-`, `*`, the unary `-` and `~`, with literals of 64 bits.
abbrev pub IsRingExpr : Expr → Type 0
IsRingExpr (int_lit v) = v < word
IsRingExpr (neg e) = IsRingExpr e
IsRingExpr (bin_not e) = IsRingExpr e
IsRingExpr (bin op l r) = IsRingOp op × IsRingExpr l × IsRingExpr r
IsRingExpr _ = ⊥

abbrev ring_op : BinOp → ℕ → ℕ → ℕ
ring_op binop_add a b = add64 a b
ring_op binop_sub a b = sub64 a b
ring_op binop_mul a b = mul64 a b
ring_op _ a b = 0

-- The value of such an expression on whole words, nothing being cut to the type in between.
unfoldable pub whole : Expr → ℕ
whole (int_lit v) = v
whole (neg e) = neg64 (whole e)
whole (bin_not e) = not64 (whole e)
whole (bin op l r) = ring_op op (whole l) (whole r)
whole _ = 0

ring_op-lt : (op : BinOp) (a b : ℕ) → IsRingOp op → ring_op op a b < word
unfolding add64 sub64 mul64
ring_op-lt binop_add a b h = omega arith
ring_op-lt binop_sub a b h = omega arith
ring_op-lt binop_mul a b h = omega arith
ring_op-lt _ a b h = absurd h

whole-lt : (e : Expr) → IsRingExpr e → whole e < word
unfolding whole
whole-lt (int_lit v) h = h
whole-lt (neg e) h = unfold neg64 in omega arith
whole-lt (bin_not e) h = unfold not64 in omega arith
whole-lt (bin op l r) h = ring_op-lt op (whole l) (whole r) h.0
whole-lt _ h = absurd h

-- The low bits of a result depend on the low bits of the operands alone.
ring_op_low :
    (op : BinOp) (w a a' b b' : ℕ)
    → IsWidth w
    → IsRingOp op
    → b < word
    → b' < word
    → SameLow w a a'
    → SameLow w b b'
    → SameLow w (ring_op op a b) (ring_op op a' b')
ring_op_low binop_add w a a' b b' o h lb lb' ha hb = add64_low w a a' b b' o ha hb
ring_op_low binop_sub w a a' b b' o h lb lb' ha hb = sub64_low w a a' b b' o lb lb' ha hb
ring_op_low binop_mul w a a' b b' o h lb lb' ha hb = mul64_low w a a' b b' o ha hb
ring_op_low _ w a a' b b' o h lb lb' ha hb = absurd h

fold_bin-ring_op :
    (s : Bool) (op : BinOp) (a b : ℕ) → IsRingOp op → fold_bin s op a b ≡ done (ring_op op a b)
unfolding fold_bin
fold_bin-ring_op s binop_add a b h = refl
fold_bin-ring_op s binop_sub a b h = refl
fold_bin-ring_op s binop_mul a b h = refl
fold_bin-ring_op s _ a b h = absurd h

-- An operation on a normal form, then normalization, is normalization of the operation on words.
fold_neg :
    (t : IntType) (x : ℕ)
    → IsWidth t.bitlength
    → x < word
    → normalize_constant t (neg64 (normalize_constant t x)) ≡ normalize_constant t (neg64 x)
fold_neg t x o h =
    let (_, low, lt) = normalize_constant_lem t x o h in
    normalize_constant_congruent t (neg64 (normalize_constant t x)) (neg64 x) o
      (unfold neg64 in omega arith) (unfold neg64 in omega arith)
      (neg64_low t.bitlength (normalize_constant t x) x o lt h low)

fold_not :
    (t : IntType) (x : ℕ)
    → IsWidth t.bitlength
    → x < word
    → normalize_constant t (not64 (normalize_constant t x)) ≡ normalize_constant t (not64 x)
fold_not t x o h =
    let (_, low, lt) = normalize_constant_lem t x o h in
    normalize_constant_congruent t (not64 (normalize_constant t x)) (not64 x) o
      (unfold not64 in omega arith) (unfold not64 in omega arith)
      (not64_low t.bitlength (normalize_constant t x) x o lt h low)

fold_ring :
    (t : IntType) (op : BinOp) (x y : ℕ)
    → IsWidth t.bitlength
    → IsRingOp op
    → x < word
    → y < word
    → normalize_constant t (ring_op op (normalize_constant t x) (normalize_constant t y))
      ≡ normalize_constant t (ring_op op x y)
fold_ring t op x y o hop hx hy =
    let (_, lowx, ltx) = normalize_constant_lem t x o hx in
    let (_, lowy, lty) = normalize_constant_lem t y o hy in
    normalize_constant_congruent t (ring_op op (normalize_constant t x) (normalize_constant t y))
      (ring_op op x y) o (ring_op-lt op (normalize_constant t x) (normalize_constant t y) hop)
      (ring_op-lt op x y hop)
      (ring_op_low op t.bitlength (normalize_constant t x) x (normalize_constant t y) y o hop lty hy
        lowx lowy)

step_neg :
    (t : IntType) (e : Expr) (x : ℕ)
    → calculate_constant t e ≡ done x
    → calculate_constant t (neg e) ≡ done (normalize_constant t (neg64 x))
unfolding calculate_constant convert_constant
step_neg t e x h = rw h refl

step_not :
    (t : IntType) (e : Expr) (x : ℕ)
    → calculate_constant t e ≡ done x
    → calculate_constant t (bin_not e) ≡ done (normalize_constant t (not64 x))
unfolding calculate_constant convert_constant
step_not t e x h = rw h refl

step_bin :
    (t : IntType) (op : BinOp) (l r : Expr) (x y z : ℕ)
    → calculate_constant t l ≡ done x
    → calculate_constant t r ≡ done y
    → fold_bin t.issigned op x y ≡ done z
    → calculate_constant t (bin op l r) ≡ done (normalize_constant t z)
unfolding calculate_constant convert_constant
step_bin t op l r x y z hl hr h = rw hl (rw hr (rw h refl))

-- A constant expression over `+`, `-`, `*`, the unary `-` and `~` with literals of 64 bits folds, in a
-- type of 8, 16, 32 or 64 bits, to the normal form of its value on whole words: cutting every
-- intermediate value to the type changes nothing.
pub calculate_constant-whole :
    (t : IntType) (e : Expr)
    → IsWidth t.bitlength
    → IsRingExpr e
    → calculate_constant t e ≡ done (normalize_constant t (whole e))
unfolding whole
calculate_constant-whole t (int_lit v) o h = unfold calculate_constant convert_constant in refl
calculate_constant-whole t (neg e) o h =
    step_neg t e (normalize_constant t (whole e)) (calculate_constant-whole t e o h)
    ∙ ap done (fold_neg t (whole e) o (whole-lt e h))
calculate_constant-whole t (bin_not e) o h =
    step_not t e (normalize_constant t (whole e)) (calculate_constant-whole t e o h)
    ∙ ap done (fold_not t (whole e) o (whole-lt e h))
calculate_constant-whole t (bin op l r) o (hop, hl, hr) =
    let x = normalize_constant t (whole l) in
    let y = normalize_constant t (whole r) in
    step_bin t op l r x y (ring_op op x y) (calculate_constant-whole t l o hl)
      (calculate_constant-whole t r o hr) (fold_bin-ring_op t.issigned op x y hop)
    ∙ ap done (fold_ring t op (whole l) (whole r) o hop (whole-lt l hl) (whole-lt r hr))
calculate_constant-whole t _ o h = absurd h
