-- ===== src/Calls/Select.antt =====
-- The loops that keep the best candidate: ParseExprOverloadCallWithRawArgs of
-- compiler/parser/dqc_parser_expr.cpp, and FindConstructorForArgs of
-- compiler/types/otype_compound.cpp.
use Prim.Native.Nat.{Ordering, lt, eq, gt}
use dq_lang.Calls.Signatures.{Param, Signature, required_param_count, matches_signature}
use dq_lang.Calls.Candidates.{
  ◌>>=◌, ArgExpr, CallArg, Score, Compiler, no_score, match_arg, match_defaults,
  analyze_call_candidate, compare_call_candidate_score,
}
use dq_lang.Prelude.{
  ℕ, ◌+◌, ◌-◌, Bool, true, false, not, ◌&&◌, Option, none, some, List, [], ◌∷◌, ltb, ◌==◌,
  if◌then◌else◌, length, drop,
}

-- OValSymFunc, by its address and its signature; `none` where it has no function type.
pub record Func : Type 0 where
  pub id : ℕ
  pub ptype : Option Signature

-- best_func, best_score and ambiguous; best_func is null in `none`.
pub record Best : Type 0 where
  pub func : Func
  pub score : Score
  pub ambiguous : Bool

-- One round of the loop at a candidate that matches.
abbrev pub against : Best → Func → Score → Ordering → Best
against b f s lt = record { func = f; score = s; ambiguous = false }
against b f s eq = record b { ambiguous = true }
against b f s gt = b

unfoldable pub keep_best : Option Best → Func → Score → Option Best
unfolding compare_call_candidate_score
keep_best none f s = some (record { func = f; score = s; ambiguous = false })
keep_best (some b) f s = some (against b f s (compare_call_candidate_score s b.score))

abbrev pub keep_if : Option Best → Func → Option Score → Option Best
keep_if b f none = b
keep_if b f (some s) = keep_best b f s

-- The loop over candidates, each with its score where it matches.
unfoldable pub best_loop : (Func → Option Score) → List Func → Option Best → Option Best
unfolding keep_best
best_loop score [] b = b
best_loop score (f ∷ fs) b = best_loop score fs (keep_if b f (score f))

pub data Selection : Type 0 where
  selected : Func → Selection
  overload_no_match overload_ambiguous : Selection

abbrev pub selection : Option Best → Selection
selection none = overload_no_match
selection (some b) = if b.ambiguous then overload_ambiguous else selected b.func

unfoldable pub overload_score : Compiler → List CallArg → Func → Option Score
unfolding analyze_call_candidate
overload_score c args f = elim f.ptype [
  | none ↦ none
  | some sig ↦ analyze_call_candidate c args sig
]

-- The function that a call of an overload set stands for.
unfoldable pub select_overload : Compiler → List CallArg → List Func → Selection
unfolding best_loop overload_score
select_overload c args fs = selection (best_loop (overload_score c args) fs none)

-- The loop over the arguments of a constructor, without the hidden parameter.
unfoldable pub match_ctor_args :
    Compiler → List Param → List (Option ArgExpr) → Score → Option Score
unfolding match_arg match_defaults
match_ctor_args c ps [] s = match_defaults ps s
match_ctor_args c ps (none ∷ more) s = none
match_ctor_args c [] (some a ∷ more) s =
    match_ctor_args c [] more (record s { uses_varargs = true })
match_ctor_args c (p ∷ ps) (some a ∷ more) s = do
  t ← match_arg c false p a s
  match_ctor_args c ps more t

unfoldable pub ctor_candidate : Compiler → List (Option ArgExpr) → Signature → Option Score
unfolding match_ctor_args required_param_count
ctor_candidate c args sig =
    if ltb (length args) (required_param_count sig.params - 1)
    then none
    else if not sig.has_varargs && ltb (length sig.params) (length args + 1)
    then none
    else match_ctor_args c (drop 1 sig.params) args no_score

unfoldable pub ctor_score : Compiler → List (Option ArgExpr) → Func → Option Score
unfolding ctor_candidate
ctor_score c args f = elim f.ptype [
  | none ↦ none
  | some sig ↦ if length sig.params == 0 then none else ctor_candidate c args sig
]

-- The constructor, and rambiguous; a null result is `none`.
unfoldable pub constructor_result : Selection → Option Func × Bool
constructor_result (selected f) = (some f, false)
constructor_result overload_no_match = (none, false)
constructor_result overload_ambiguous = (none, true)

unfoldable pub find_constructor_for_args :
    Compiler → List (Option ArgExpr) → List Func → Option Func × Bool
unfolding best_loop ctor_score constructor_result
find_constructor_for_args c args ctors =
    constructor_result (selection (best_loop (ctor_score c args) ctors none))

-- EOverloadFuncRefMatch, without OFRM_NOT_OVERLOAD, which stands for a null type.
pub data SignatureMatch : Type 0 where
  ofrm_unique_match : Func → SignatureMatch
  ofrm_no_match ofrm_ambiguous : SignatureMatch

abbrev pub signature_ok : Signature → Func → Bool
signature_ok sig f = elim f.ptype [ none ↦ false | some t ↦ matches_signature true sig t ]

-- FindMatchingSignature, at a place where rfunc is `found`.
unfoldable pub find_matching_loop : Signature → List Func → Option Func → SignatureMatch
unfolding matches_signature
find_matching_loop sig [] none = ofrm_no_match
find_matching_loop sig [] (some f) = ofrm_unique_match f
find_matching_loop sig (f ∷ fs) none =
    find_matching_loop sig fs (if signature_ok sig f then some f else none)
find_matching_loop sig (f ∷ fs) (some g) =
    let rest = find_matching_loop sig fs (some g) in
    if signature_ok sig f then ofrm_ambiguous else rest

unfoldable pub find_matching_signature : Signature → List Func → SignatureMatch
unfolding find_matching_loop
find_matching_signature sig fs = find_matching_loop sig fs none

-- FindMatchingOverloadDecl, which does not compare the modes.
unfoldable pub find_matching_overload_decl : Signature → List Func → Option Func
unfolding matches_signature
find_matching_overload_decl sig [] = none
find_matching_overload_decl sig (f ∷ fs) =
    let rest = find_matching_overload_decl sig fs in
    elim f.ptype [ none ↦ rest | some t ↦ if matches_signature false t sig then some f else rest ]
