-- ===== src/Scopes/FallbackLaws.antt =====
-- The scopes that methods use are looked at only behind the walk, the outermost first.
use dq_lang.Prelude.{
  ℕ, ◌≡◌, refl, Bool, true, false, Option, none, some, List, [], ◌∷◌, Bytes, inl, inr,
  if◌then◌else◌, Bool-cases, Option-cases,
}
use dq_lang.Scopes.Maps.{find}
use dq_lang.Scopes.State.{ValSym, Scope, ScopeLookupOptions}
use dq_lang.Scopes.Lookup.{
  last_scope, is_stop, Search, walk, find_in_fallback, finish, find_val_sym_ex, find_val_sym, found,
  missed,
}
use dq_lang.Scopes.LookupLaws.{walk_uncollected}

-- The scopes that the walk comes to if none of them declares the name.
abbrev pub reached : Bytes → Bool → List Scope → List Scope
reached name recursive [] = []
reached name recursive (s ∷ parents) =
    let more = reached name recursive parents in
    s ∷ (if last_scope name recursive s then [] else more)

-- The scopes up to the stop scope, this one with them.
abbrev pub up_to : Option ℕ → List Scope → List Scope
up_to stop [] = []
up_to stop (s ∷ scopes) = let more = up_to stop scopes in s ∷ (if is_stop stop s then [] else more)

abbrev pub reverse_onto : List Scope → List Scope → List Scope
reverse_onto acc [] = acc
reverse_onto acc (s ∷ scopes) = reverse_onto (s ∷ acc) scopes

-- The first answer that there is.
abbrev pub or_else : Option (ℕ × ValSym) → Option (ℕ × ValSym) → Option (ℕ × ValSym)
or_else none o = o
or_else (some r) o = some r

abbrev collected_by : Option ℕ → Bool → List Scope → List Scope → List Scope
collected_by stop false acc scopes = acc
collected_by stop true acc scopes = reverse_onto acc (up_to stop scopes)

-- What a walk gives, from what a walk that collects nothing gives.
abbrev replaced : Search → List Scope → Search
replaced (found i v) scopes = found i v
replaced (missed _) scopes = missed scopes

walk-replaced :
    (name : Bytes) (recursive : Bool) (stop : Option ℕ) (chain : List Scope) (collect : Bool)
    (acc : List Scope)
    → walk name recursive stop collect acc chain
      ≡ replaced
          (walk name recursive none false [] chain)
          (collected_by stop collect acc (reached name recursive chain))
unfolding walk
walk-replaced name recursive stop [] false acc = refl
walk-replaced name recursive stop [] true acc = refl
walk-replaced name recursive stop (s ∷ parents) false acc =
    elim (Option-cases (find s.valsyms name)) [
      | inl e ↦ elim (Bool-cases (last_scope name recursive s)) [
        | inl l ↦ rw (walk, walk, e, l)
        | inr l ↦ rw (walk, walk, e, l) (walk-replaced name recursive stop parents false acc)
      ]
      | inr (v, e) ↦ rw (walk, walk, e)
    ]
walk-replaced name recursive stop (s ∷ parents) true acc =
    elim (Option-cases (find s.valsyms name)) [
      | inl e ↦ elim (Bool-cases (last_scope name recursive s)) [
        | inl l ↦ elim (Bool-cases (is_stop stop s)) [
          | inl p ↦ rw (walk, walk, e, l, p)
          | inr p ↦ rw (walk, walk, e, l, p)
        ]
        | inr l ↦ elim (Bool-cases (is_stop stop s)) [
          | inl p ↦
              rw (walk, walk, e, l, p) (walk-replaced name recursive stop parents false (s ∷ acc))
          | inr p ↦
              rw (walk, walk, e, l, p) (walk-replaced name recursive stop parents true (s ∷ acc))
        ]
      ]
      | inr (v, e) ↦ rw (walk, walk, e)
    ]

-- FindValSymEx returns what FindValSym returns; only where that is nothing, and if the options ask for
-- it, it returns the first symbol of the method uses of the scopes that the walk came to, up to the
-- stop scope, the outermost of them first.
pub find_val_sym_ex-or_else :
    (name : Bytes) (recursive : Bool) (options : ScopeLookupOptions) (chain : List Scope)
    → let scopes = up_to options.fallback_stop_scope (reached name recursive chain) in
      find_val_sym_ex name recursive options chain
      ≡ or_else (find_val_sym name recursive chain) (
          if options.use_method_fallback_scopes
          then find_in_fallback name (reverse_onto [] scopes)
          else none)
unfolding find_val_sym_ex find_val_sym finish
find_val_sym_ex-or_else name recursive options chain =
    let whole =
      walk-replaced name recursive options.fallback_stop_scope chain
        options.use_method_fallback_scopes [] in
    elim (walk_uncollected name recursive chain) [
      | inl e ↦ elim (Bool-cases options.use_method_fallback_scopes) [
        | inl u ↦ rw (whole, e, u)
        | inr u ↦ rw (whole, e, u)
      ]
      | inr (i, v, e) ↦ rw (whole, e)
    ]
