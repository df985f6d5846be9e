-- ===== src/Parser/CompareSteps.antt =====
-- The reading of a comparison on a known text.
use dq_lang.Feeder.State.{Feeder, unread}
use dq_lang.Feeder.Scan.{starts_with}
use dq_lang.Feeder.Tokens.{check_symbol}
use dq_lang.Parser.Levels.{}
use dq_lang.Parser.Print.{Cmp, cmp_text, no_symbol, eq, ne, lt, le, gt, ge}
use dq_lang.Parser.Steps.{Reads, check_symbol-hit, check_symbol-look, check_symbol-miss}
use dq_lang.Parser.Comparison.{
  CompareOp, CompareOps, compare_ops, find_compare, parse_compare_op, is_range, ambiguous,
  compop_eq, compop_ne, compop_lt, compop_le, compop_gt, compop_ge,
}
use dq_lang.Prelude.{◌≡◌, refl, sym, ◌∙◌, ◌⊎◌, inl, inr, Bool, true, false, [], ◌∷◌, ◌++◌, Bytes}

abbrev pub cmp_op : Cmp → CompareOp
cmp_op eq = compop_eq
cmp_op ne = compop_ne
cmp_op lt = compop_lt
cmp_op le = compop_le
cmp_op gt = compop_gt
cmp_op ge = compop_ge

-- Two comparisons that make a range: both go up or both go down.
unfoldable pub joins : Cmp → Cmp → Bool
joins lt lt = true
joins lt le = true
joins le lt = true
joins le le = true
joins gt gt = true
joins gt ge = true
joins ge gt = true
joins ge ge = true
joins _ _ = false

pub is_range-joins : (o p : Cmp) → is_range (cmp_op o) (cmp_op p) ≡ joins o p
unfolding is_range joins
is_range-joins eq p = refl
is_range-joins ne p = refl
is_range-joins lt p = elim p as (λ (q : Cmp). is_range (cmp_op lt) (cmp_op q) ≡ joins lt q) [
  | eq ↦ refl
  | ne ↦ refl
  | lt ↦ refl
  | le ↦ refl
  | gt ↦ refl
  | ge ↦ refl
]
is_range-joins le p = elim p as (λ (q : Cmp). is_range (cmp_op le) (cmp_op q) ≡ joins le q) [
  | eq ↦ refl
  | ne ↦ refl
  | lt ↦ refl
  | le ↦ refl
  | gt ↦ refl
  | ge ↦ refl
]
is_range-joins gt p = elim p as (λ (q : Cmp). is_range (cmp_op gt) (cmp_op q) ≡ joins gt q) [
  | eq ↦ refl
  | ne ↦ refl
  | lt ↦ refl
  | le ↦ refl
  | gt ↦ refl
  | ge ↦ refl
]
is_range-joins ge p = elim p as (λ (q : Cmp). is_range (cmp_op ge) (cmp_op q) ≡ joins ge q) [
  | eq ↦ refl
  | ne ↦ refl
  | lt ↦ refl
  | le ↦ refl
  | gt ↦ refl
  | ge ↦ refl
]

-- The comparison stands in the list behind others that do not stand in the text.
unfoldable FindsCompare : CompareOps → Bytes → CompareOp → Bytes → Type 0
FindsCompare [] text op rest = ⊥
FindsCompare ((s, o) ∷ ops) text op rest =
    ((text ≡ s ++ rest) × (o ≡ op)) ⊎ ((starts_with s text ≡ false) × FindsCompare ops text op rest)

cmp-FindsCompare :
    (o : Cmp) (more : Bytes)
    → FindsCompare compare_ops (cmp_text o ++ 32 ∷ more) (cmp_op o) (32 ∷ more)
unfolding FindsCompare starts_with
cmp-FindsCompare eq more = inl (refl, refl)
cmp-FindsCompare ne more = inr (refl, inl (refl, refl))
cmp-FindsCompare le more = inr (refl, inr (refl, inl (refl, refl)))
cmp-FindsCompare lt more = inr (refl, inr (refl, inr (refl, inl (refl, refl))))
cmp-FindsCompare ge more = inr (refl, inr (refl, inr (refl, inr (refl, inl (refl, refl)))))
cmp-FindsCompare gt more =
    inr (refl, inr (refl, inr (refl, inr (refl, inr (refl, inl (refl, refl))))))

find_compare-hit :
    (ops : CompareOps) (text : Bytes) (op : CompareOp) (rest : Bytes) (f : Feeder)
    → unread f ≡ text
    → FindsCompare ops text op rest
    → Reads (find_compare ops true f) op rest
unfolding find_compare FindsCompare
find_compare-hit [] text op rest f h e = absurd e
find_compare-hit ((s, o) ∷ ops) text op rest f h (inl (split, same)) =
    let (hit, left) = check_symbol-hit s rest f (h ∙ split) in rw hit (same, left)
find_compare-hit ((s, o) ∷ ops) text op rest f h (inr (here, later)) =
    let (missed, same) = check_symbol-miss s text true f h here in
    rw missed (find_compare-hit ops text op rest (check_symbol s true f).0 same later)

find_compare-look :
    (ops : CompareOps) (text : Bytes) (op : CompareOp) (rest : Bytes) (f : Feeder)
    → unread f ≡ text
    → FindsCompare ops text op rest
    → Reads (find_compare ops false f) op text
unfolding find_compare FindsCompare
find_compare-look [] text op rest f h e = absurd e
find_compare-look ((s, o) ∷ ops) text op rest f h (inl (split, same)) =
    let (hit, left) = check_symbol-look s rest f (h ∙ split) in rw hit (same, left ∙ sym split)
find_compare-look ((s, o) ∷ ops) text op rest f h (inr (here, later)) =
    let (missed, same) = check_symbol-miss s text false f h here in
    rw missed (find_compare-look ops text op rest (check_symbol s false f).0 same later)

pub parse_compare_op-hit :
    (o : Cmp) (more : Bytes) (f : Feeder)
    → unread f ≡ cmp_text o ++ 32 ∷ more
    → Reads (parse_compare_op true f) (cmp_op o) (32 ∷ more)
unfolding parse_compare_op
parse_compare_op-hit o more f h =
    find_compare-hit compare_ops (cmp_text o ++ 32 ∷ more) (cmp_op o) (32 ∷ more) f h
      (cmp-FindsCompare o more)

pub parse_compare_op-look :
    (o : Cmp) (more : Bytes) (f : Feeder)
    → unread f ≡ cmp_text o ++ 32 ∷ more
    → Reads (parse_compare_op false f) (cmp_op o) (cmp_text o ++ 32 ∷ more)
unfolding parse_compare_op
parse_compare_op-look o more f h =
    find_compare-look compare_ops (cmp_text o ++ 32 ∷ more) (cmp_op o) (32 ∷ more) f h
      (cmp-FindsCompare o more)

pub no_ambiguous : (o : Cmp) (more : Bytes) → no_symbol ambiguous (cmp_text o ++ 32 ∷ more) ≡ true
unfolding no_symbol starts_with
no_ambiguous eq more = refl
no_ambiguous ne more = refl
no_ambiguous lt more = refl
no_ambiguous le more = refl
no_ambiguous gt more = refl
no_ambiguous ge more = refl
