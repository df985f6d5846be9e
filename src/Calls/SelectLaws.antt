-- ===== src/Calls/SelectLaws.antt =====
-- The choice among candidates, whatever the order in which they are declared.
use Prim.Native.Nat.{Ordering, lt, eq, gt}
use mathlib.Core.List.Permᴰ.{Permᴰ, nil, cons, swap, trans}
use dq_lang.Calls.Signatures.{same_bool}
use dq_lang.Calls.Candidates.{Score, compare_call_candidate_score, CallArg, Compiler}
use dq_lang.Calls.Select.{
  Func, Best, Selection, selected, overload_no_match, overload_ambiguous, keep_best, keep_if,
  best_loop, selection, overload_score, select_overload,
}
use dq_lang.Prelude.{
  ◌≡◌, Bool, true, false, arith, Option, none, some, List, [], ◌∷◌, if◌then◌else◌, refl, ap, ◌∙◌,
  sym,
}

abbrev pub cmp : Score → Score → Ordering
cmp = compare_call_candidate_score

same_bool_eq : (a b : Bool) → same_bool a b ≡ true → a ≡ b
same_bool_eq true b h = ground arith
same_bool_eq false b h = ground arith

pub cmp_refl : (s : Score) → cmp s s ≡ eq
unfolding compare_call_candidate_score
cmp_refl s = ground arith

pub cmp-eq : (s t : Score) → cmp s t ≡ eq → s ≡ t
unfolding compare_call_candidate_score
cmp-eq s t h =
    let conversions : s.conversions ≡ t.conversions = ground arith in
    let defaults : s.defaults ≡ t.defaults = ground arith in
    let varargs : s.uses_varargs ≡ t.uses_varargs = ground arith in
    λ i. record { conversions = conversions i; defaults = defaults i; uses_varargs = varargs i }

pub cmp_flip : (s t : Score) → cmp s t ≡ lt → cmp t s ≡ gt
unfolding compare_call_candidate_score
cmp_flip s t h = ground arith

pub cmp_back : (s t : Score) → cmp s t ≡ gt → cmp t s ≡ lt
unfolding compare_call_candidate_score
cmp_back s t h = ground arith

pub cmp_trans : (s t u : Score) → cmp s t ≡ lt → cmp t u ≡ lt → cmp s u ≡ lt
unfolding compare_call_candidate_score
cmp_trans s t u h k = ground arith

-- What the loop keeps: of several best candidates it is forgotten which one came first.
pub data View : Type 0 where
  nothing : View
  one : Func → Score → View
  tie : Score → View

abbrev pub view : Option Best → View
view none = nothing
view (some b) = if b.ambiguous then tie b.score else one b.func b.score

abbrev pub next_one : Func → Score → Func → Score → Ordering → View
next_one g t f s lt = one f s
next_one g t f s eq = tie t
next_one g t f s gt = one g t

abbrev pub next_tie : Score → Func → Score → Ordering → View
next_tie t f s lt = one f s
next_tie t f s eq = tie t
next_tie t f s gt = tie t

unfoldable pub next : View → Func → Score → View
next nothing f s = one f s
next (one g t) f s = next_one g t f s (cmp s t)
next (tie t) f s = next_tie t f s (cmp s t)

abbrev pub next_if : View → Func → Option Score → View
next_if v f none = v
next_if v f (some s) = next v f s

unfoldable pub view_loop : (Func → Option Score) → List Func → View → View
view_loop score [] v = v
view_loop score (f ∷ fs) v = view_loop score fs (next_if v f (score f))

abbrev pub shown : View → Selection
shown nothing = overload_no_match
shown (one f s) = selected f
shown (tie s) = overload_ambiguous

next-swap : (v : View) (f g : Func) (s t : Score) → next (next v f s) g t ≡ next (next v g t) f s
unfolding next
next-swap nothing f g s t = grind (arith, cmp_refl, cmp-eq, cmp_flip, cmp_back, cmp_trans)
next-swap (one h u) f g s t = grind (arith, cmp_refl, cmp-eq, cmp_flip, cmp_back, cmp_trans)
next-swap (tie u) f g s t = grind (arith, cmp_refl, cmp-eq, cmp_flip, cmp_back, cmp_trans)

view-keep_if :
    (b : Option Best) (f : Func) (o : Option Score) → view (keep_if b f o) ≡ next_if (view b) f o
unfolding next keep_best
view-keep_if none f none = refl
view-keep_if none f (some s) = refl
view-keep_if (some b) f none = refl
view-keep_if (some b) f (some s) = ground (arith, cmp-eq s b.score)

pub selection-best_loop :
    (score : Func → Option Score) (fs : List Func) (b : Option Best)
    → selection (best_loop score fs b) ≡ shown (view_loop score fs (view b))
unfolding best_loop view_loop
selection-best_loop score [] none = refl
selection-best_loop score [] (some b) = ground arith
selection-best_loop score (f ∷ fs) b =
    selection-best_loop score fs (keep_if b f (score f))
    ∙ ap (λ v. shown (view_loop score fs v)) (view-keep_if b f (score f))

next_if-swap :
    (v : View) (f g : Func) (o p : Option Score)
    → next_if (next_if v f o) g p ≡ next_if (next_if v g p) f o
next_if-swap v f g none p = refl
next_if-swap v f g (some s) none = refl
next_if-swap v f g (some s) (some t) = next-swap v f g s t

pub view_loop-Permᴰ :
    (score : Func → Option Score) {fs gs : List Func} (v : View)
    → Permᴰ fs gs
    → view_loop score fs v ≡ view_loop score gs v
unfolding view_loop
view_loop-Permᴰ score v nil = refl
view_loop-Permᴰ score v (cons {a} {b} {l₁} {l₂} e p) =
    view_loop-Permᴰ score (next_if v a (score a)) p
    ∙ ap (λ f. view_loop score l₂ (next_if v f (score f))) e
view_loop-Permᴰ score v (swap {a} {b} {a'} {b'} {l} e e') =
    ap (view_loop score l) (next_if-swap v a b (score a) (score b))
    ∙ ap (λ g. view_loop score l (next_if (next_if v g (score g)) a (score a))) e'
    ∙ ap (λ f. view_loop score l (next_if (next_if v a' (score a')) f (score f))) e
view_loop-Permᴰ score v (trans p q) = view_loop-Permᴰ score v p ∙ view_loop-Permᴰ score v q

-- The function that an overloaded call stands for, and whether the call is ambiguous, do not depend
-- on the order in which the overloads were declared.
pub select_overload-Permᴰ :
    (c : Compiler) (args : List CallArg) (fs gs : List Func)
    → Permᴰ fs gs
    → select_overload c args fs ≡ select_overload c args gs
unfolding select_overload
select_overload-Permᴰ c args fs gs p =
    let score = overload_score c args in
    selection-best_loop score fs none
    ∙ ap shown (view_loop-Permᴰ score nothing p)
    ∙ sym (selection-best_loop score gs none)
