-- ===== src/Calls/BestLaws.antt =====
-- The best candidate: what makes a call of an overload or a constructor resolve.
use Prim.Native.Nat.{Ordering, lt, eq, gt}
use mathlib.Core.List.Permᴰ
use dq_lang.Calls.Signatures.{}
use dq_lang.Calls.Candidates.{ArgExpr, CallArg, Score, Compiler}
use dq_lang.Calls.Select.{
  Func, best_loop, Selection, selection, overload_score, select_overload, ctor_score,
  constructor_result, find_constructor_for_args, selected, overload_no_match, overload_ambiguous,
}
use dq_lang.Calls.SelectLaws.{
  cmp, cmp-eq, cmp_flip, cmp_back, cmp_trans, View, next, next_if, view_loop, shown,
  selection-best_loop, view_loop-Permᴰ, nothing, one, tie,
}
use dq_lang.Prelude.{
  ◌≡◌, refl, sym, ap, ◌∙◌, ◌↔◌, ◌⊎◌, inl, inr, Bool, false, Option, none, some, List, [], ◌∷◌, ◌++◌,
  Option-cases, All, All-append,
}

-- Every candidate of a list that matches is worse than the score.
abbrev pub AllWorse : (Func → Option Score) → Score → List Func → Type 0
AllWorse score s = All (λ (g : Func). (t : Score) → score g ≡ some t → cmp s t ≡ lt)

-- The function stands in the list, matches, and all others that match are worse.
pub record IsBest (score : Func → Option Score) (fs : List Func) (f : Func) : Type 0 where
  pub value : Score
  pub before : List Func
  pub after : List Func
  pub splits : fs ≡ before ++ f ∷ after
  pub matches : score f ≡ some value
  pub worse_before : AllWorse score value before
  pub worse_after : AllWorse score value after

abbrev Loses : View → Score → Type 0
Loses nothing s = Unit
Loses (one g u) s = cmp s u ≡ lt
Loses (tie u) s = cmp s u ≡ lt

abbrev Ordering-cases : (o : Ordering) → (o ≡ lt) ⊎ (o ≡ eq) ⊎ (o ≡ gt)
Ordering-cases lt = inl refl
Ordering-cases eq = inr (inl refl)
Ordering-cases gt = inr (inr refl)

Loses-next : (v : View) (g : Func) (t s : Score) → Loses (next v g t) s → Loses v s × (cmp s t ≡ lt)
unfolding next
Loses-next nothing g t s h = (tt, h)
Loses-next (one f u) g t s h = elim (Ordering-cases (cmp t u)) [
  | inl e ↦ let k : cmp s t ≡ lt = rw e at h in (cmp_trans s t u k e, k)
  | inr (inl e) ↦ let k : cmp s u ≡ lt = rw e at h in (k, rw (cmp-eq t u e) k)
  | inr (inr e) ↦ let k : cmp s u ≡ lt = rw e at h in (k, cmp_trans s u t k (cmp_back t u e))
]
Loses-next (tie u) g t s h = elim (Ordering-cases (cmp t u)) [
  | inl e ↦ let k : cmp s t ≡ lt = rw e at h in (cmp_trans s t u k e, k)
  | inr (inl e) ↦ let k : cmp s u ≡ lt = rw e at h in (k, rw (cmp-eq t u e) k)
  | inr (inr e) ↦ let k : cmp s u ≡ lt = rw e at h in (k, cmp_trans s u t k (cmp_back t u e))
]

next-one :
    (v : View) (g : Func) (t : Score) (f : Func) (s : Score)
    → next v g t ≡ one f s
    → ((v ≡ one f s) × (cmp s t ≡ lt)) ⊎ ((g ≡ f) × (t ≡ s) × Loses v s)
unfolding next
next-one nothing g t f s h = inr (cc, cc, tt)
next-one (one f' u) g t f s h = elim (Ordering-cases (cmp t u)) [
  | inl e ↦
      let k : one g t ≡ one f s = rw e at h in let same : t ≡ s = cc in inr (cc, same, rw same at e)
  | inr (inl e) ↦ let k : tie u ≡ one f s = rw e at h in cc
  | inr (inr e) ↦
      let k : one f' u ≡ one f s = rw e at h in
      let same : u ≡ s = cc in inl (k, rw same at (cmp_back t u e))
]
next-one (tie u) g t f s h = elim (Ordering-cases (cmp t u)) [
  | inl e ↦
      let k : one g t ≡ one f s = rw e at h in let same : t ≡ s = cc in inr (cc, same, rw same at e)
  | inr (inl e) ↦ let k : tie u ≡ one f s = rw e at h in cc
  | inr (inr e) ↦ let k : tie u ≡ one f s = rw e at h in cc
]

-- Where one candidate is left alone, it was so before or stands in the list.
view_loop-one :
    (score : Func → Option Score) (fs : List Func) (v : View) (f : Func) (s : Score)
    → view_loop score fs v ≡ one f s
    → ((v ≡ one f s) × AllWorse score s fs)
      ⊎ ((before : List Func) × (after : List Func) × (fs ≡ before ++ f ∷ after)
          × (score f ≡ some s)
          × AllWorse score s before
          × AllWorse score s after
          × Loses v s)
unfolding view_loop
view_loop-one score [] v f s h = inl (h, tt)
view_loop-one score (g ∷ fs) v f s h = elim (Option-cases (score g)) [
  | inl e ↦ elim (view_loop-one score fs (next_if v g (score g)) f s h) [
    | inl (k, worse) ↦ inl (rw e at k, ((λ t q. cc), worse))
    | inr (before, after, split, same, first, later, loses) ↦
        inr (g ∷ before, after, ap (◌∷◌ g) split, same, ((λ t q. cc), first), later, rw e at loses)
  ]
  | inr (t, e) ↦ elim (view_loop-one score fs (next_if v g (score g)) f s h) [
    | inl (k, worse) ↦
        let step : next v g t ≡ one f s = rw e at k in
        elim (next-one v g t f s step) [
          | inl (same, less) ↦ inl (same, ((λ u q. let w : t ≡ u = cc in rw w at less), worse))
          | inr (found, value, loses) ↦
              let hit : score f ≡ some s = cc in
              inr ([], fs, ap (λ x. x ∷ fs) found, hit, tt, worse, loses)
        ]
    | inr (before, after, split, same, first, later, loses) ↦
        let before_that : Loses (next v g t) s = rw e at loses in
        let (earlier, less) = Loses-next v g t s before_that in
        inr (
          g ∷ before,
          after,
          ap (◌∷◌ g) split,
          same,
          ((λ u q. let w : t ≡ u = cc in rw w at less), first),
          later,
          earlier,
        )
  ]
]

-- A candidate that is alone stays so while only worse ones follow.
view_loop-AllWorse :
    (score : Func → Option Score) (fs : List Func) (f : Func) (s : Score)
    → AllWorse score s fs
    → view_loop score fs (one f s) ≡ one f s
unfolding view_loop next
view_loop-AllWorse score [] f s h = refl
view_loop-AllWorse score (g ∷ fs) f s (worse, h) = elim (Option-cases (score g)) [
  | inl e ↦ rw e (view_loop-AllWorse score fs f s h)
  | inr (t, e) ↦ rw (e, cmp_flip s t (worse t e)) (view_loop-AllWorse score fs f s h)
]

first_best :
    (score : Func → Option Score) (f : Func) (s : Score) (fs : List Func)
    → score f ≡ some s
    → AllWorse score s fs
    → view_loop score (f ∷ fs) nothing ≡ one f s
unfolding view_loop next
first_best score f s fs e h = rw e (view_loop-AllWorse score fs f s h)

best_to_front :
    (score : Func → Option Score) (fs : List Func) (f : Func)
    → (b : IsBest score fs f) → view_loop score fs nothing ≡ one f b.value
best_to_front score fs f b =
    ap (λ gs. view_loop score gs nothing) b.splits
    ∙ view_loop-Permᴰ score nothing (Permᴰ.middle f b.before b.after)
    ∙ first_best score f b.value (b.before ++ b.after) b.matches
        (All-append _ b.before b.after b.worse_before b.worse_after)

shown-selected : (v : View) (f : Func) → shown v ≡ selected f → (s : Score) × (v ≡ one f s)
shown-selected nothing f h = cc
shown-selected (one g s) f h = let e : g ≡ f = cc in (s, rw e refl)
shown-selected (tie s) f h = cc

view-IsBest :
    (score : Func → Option Score) (fs : List Func) (f : Func)
    → shown (view_loop score fs nothing) ≡ selected f
    → IsBest score fs f
view-IsBest score fs f h =
    let (s, e) = shown-selected (view_loop score fs nothing) f h in
    elim (view_loop-one score fs nothing f s e) [
      | inl (k, _) ↦ cc
      | inr (before, after, split, same, first, later, _) ↦ record {
        value = s;
        before = before;
        after = after;
        splits = split;
        matches = same;
        worse_before = first;
        worse_after = later;
      }
    ]

-- A loop over candidates selects a function exactly if it matches and all the other candidates that
-- match are worse.
selection_iff :
    (score : Func → Option Score) (fs : List Func) (f : Func)
    → (selection (best_loop score fs none) ≡ selected f) ↔ IsBest score fs f
selection_iff score fs f = (
  λ h. view-IsBest score fs f (sym (selection-best_loop score fs none) ∙ h),
  λ b. selection-best_loop score fs none ∙ ap shown (best_to_front score fs f b),
)

found_only : (s : Selection) (f : Func) → constructor_result s ≡ (some f, false) → s ≡ selected f
unfolding constructor_result
found_only (selected g) f h = let e : some g ≡ some f = ap (λ (r : Option Func × Bool). r.0) h in cc
found_only overload_no_match f h =
    let e : none ≡ some f = ap (λ (r : Option Func × Bool). r.0) h in cc
found_only overload_ambiguous f h =
    let e : none ≡ some f = ap (λ (r : Option Func × Bool). r.0) h in cc

-- A call of an overload set resolves to a function exactly if that function can be called with the
-- arguments, and every other overload that can be called has a worse score: more costly
-- conversions; or as costly ones and more defaults; or both the same and the use of varargs, which
-- it alone makes.
pub select_overload_iff :
    (c : Compiler) (args : List CallArg) (fs : List Func) (f : Func)
    → (select_overload c args fs ≡ selected f) ↔ IsBest (overload_score c args) fs f
unfolding select_overload
select_overload_iff c args fs f = selection_iff (overload_score c args) fs f

-- FindConstructorForArgs returns a constructor exactly if it matches the arguments and every other
-- constructor that matches has a worse score; it then does not report an ambiguity.
pub find_constructor_for_args_iff :
    (c : Compiler) (args : List (Option ArgExpr)) (ctors : List Func) (f : Func)
    → (find_constructor_for_args c args ctors ≡ (some f, false))
      ↔ IsBest (ctor_score c args) ctors f
unfolding find_constructor_for_args constructor_result
find_constructor_for_args_iff c args ctors f =
    let (to, from) = selection_iff (ctor_score c args) ctors f in
    (
      λ h. to (found_only (selection (best_loop (ctor_score c args) ctors none)) f h),
      λ b. rw (from b) refl,
    )
