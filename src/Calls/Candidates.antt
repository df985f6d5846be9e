-- ===== src/Calls/Candidates.antt =====
-- Whether a function can be called with some arguments, and how well: AnalyzeCallCandidate and
-- CompareCallCandidateScore of compiler/types/otype_func.cpp.
use Prim.Native.Nat.{Ordering, lt, eq, gt}
use dq_lang.Calls.Signatures.{
  Param, Signature, ParamMode, is_ref_like, same_mode, ParamType, required_param_count, same_bool,
  same_ref_binding_type, fpm_refin, fpm_refnil,
}
use dq_lang.Prelude.{
  ℕ, ◌+◌, Bool, true, false, not, ◌&&◌, ◌||◌, Option, none, some, List, [], ◌∷◌, ltb, ◌==◌,
  if◌then◌else◌, length, codes, same_text,
}

-- The symbol at the root of an argument that has an address.
pub record Root : Type 0 where
  pub is_const : Bool
  pub is_ref_writeable : Bool

-- What is asked of an argument; the conversion to the type of a parameter is the compiler's, the
-- parameter `cost` below, with `none` for a negative cost.
pub record ArgExpr : Type 0 where
  pub id : ℕ
  pub ptype : ParamType
  pub is_null : Bool
  pub is_lvalue : Bool
  pub is_read_only_text : Bool
  pub root : Option Root

pub record CallArg : Type 0 where
  pub expr : Option ArgExpr
  pub has_init_diags : Bool

pub record Score : Type 0 where
  pub conversions : ℕ
  pub defaults : ℕ
  pub uses_varargs : Bool

abbrev pub no_score : Score
no_score = record { conversions = 0; defaults = 0; uses_varargs = false }

-- GetAssignTypeConversionCost, and the type at the root of all objects.
pub record Compiler : Type 0 where
  pub cost : ParamType → ArgExpr → Option ℕ
  pub root_object : ℕ

abbrev pub root_ok : Option Root → Bool
root_ok none = true
root_ok (some r) = not r.is_const && r.is_ref_writeable

abbrev pub is_refin : ParamMode → Bool
is_refin m = same_mode m fpm_refin

-- An argument at a parameter by reference; `hidden` says that it is the hidden receiver.
unfoldable pub ref_ok : Compiler → Bool → Param → ArgExpr → Bool
unfolding same_mode same_ref_binding_type
ref_ok c hidden p a =
    if a.is_null
    then same_mode p.mode fpm_refnil
    else a.is_lvalue
      && (is_refin p.mode || not a.is_read_only_text)
      && root_ok a.root
      && same_ref_binding_type c.root_object p.ptype a.ptype hidden

abbrev pub add_cost : Score → Option ℕ → Option Score
add_cost s none = none
add_cost s (some n) = some (record s { conversions = s.conversions + n })

-- One argument at its parameter.
unfoldable pub match_arg : Compiler → Bool → Param → ArgExpr → Score → Option Score
unfolding is_ref_like ref_ok
match_arg c hidden p a s =
    if not (is_ref_like p.mode)
    then add_cost s (c.cost p.ptype a)
    else if ref_ok c hidden p a
    then some s
    else none

-- The loop over the parameters that are left.
unfoldable pub match_defaults : List Param → Score → Option Score
match_defaults [] s = some s
match_defaults (p ∷ ps) s =
    let rest = match_defaults ps (record s { defaults = s.defaults + 1 }) in
    if p.has_default then rest else none

infixl 5 ◌>>=◌
abbrev pub ◌>>=◌ : {A B : Type 0} → Option A → (A → Option B) → Option B
none >>= k = none
some a >>= k = k a

abbrev pub usable : CallArg → Option ArgExpr
usable a = if a.has_init_diags then none else a.expr

-- The loop over the arguments; `first` says that the argument is the first of the call.
unfoldable pub match_args : Compiler → Bool → List Param → List CallArg → Score → Option Score
unfolding match_arg match_defaults
match_args c first ps [] s = match_defaults ps s
match_args c first [] (a ∷ more) s = do
  _ ← usable a
  match_args c false [] more (record s { uses_varargs = true })
match_args c first (p ∷ ps) (a ∷ more) s = do
  e ← usable a
  t ← match_arg c (first && same_text p.name (codes "__this")) p e s
  match_args c false ps more t

unfoldable pub analyze_call_candidate : Compiler → List CallArg → Signature → Option Score
unfolding match_args required_param_count
analyze_call_candidate c args sig =
    if ltb (length args) (required_param_count sig.params)
    then none
    else if not sig.has_varargs && ltb (length sig.params) (length args)
    then none
    else match_args c true sig.params args no_score

-- The sign of the result: lt stands for -1.
unfoldable pub compare_call_candidate_score : Score → Score → Ordering
compare_call_candidate_score l r =
    if not (l.conversions == r.conversions)
    then (if ltb l.conversions r.conversions then lt else gt)
    else if not (l.defaults == r.defaults)
    then (if ltb l.defaults r.defaults then lt else gt)
    else if not (same_bool l.uses_varargs r.uses_varargs)
    then (if l.uses_varargs then gt else lt)
    else eq
