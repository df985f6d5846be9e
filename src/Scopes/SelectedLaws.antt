-- ===== src/Scopes/SelectedLaws.antt =====
-- What a `use` makes known: exactly the selected symbols of the module.
use dq_lang.Prelude.{
  ◌≡◌, ◌∙◌, refl, sym, ap, Bool, true, false, Option, none, some, [], ◌∷◌, Bytes, same_text,
  same_text-eq, if◌then◌else◌, inl, inr, Bool-cases,
}
use dq_lang.Scopes.Maps.{Map, find, put, find-put, find-put_other}
use dq_lang.Scopes.State.{Scope}
use dq_lang.Scopes.Selected.{copy_selected, ModuleUse, symbol_selected, copy_selected_symbols_to}

-- No key twice, as in a std::map.
abbrev pub DistinctKeys : {A : Type 0} → Map A → Type 0
DistinctKeys [] = Unit
DistinctKeys ((k, a) ∷ m) = (find m k ≡ none) × DistinctKeys m

-- What a copied map answers: a selected symbol of the source hides the one that was there.
abbrev pub preferred : {A : Type 0} → Bool → Option A → Option A → Option A
preferred true (some a) o = some a
preferred _ _ o = o

preferred-none : {A : Type 0} (b : Bool) (o : Option A) → preferred b none o ≡ o
preferred-none true o = refl
preferred-none false o = refl

find-chosen :
    {A : Type 0} (b : Bool) (dst : Map A) (k n : Bytes) (a : A)
    → k ≡ n
    → find (if b then put dst k a else dst) n ≡ preferred b (some a) (find dst n)
find-chosen true dst k n a same = ap (find (put dst k a)) (sym same) ∙ find-put dst k a
find-chosen false dst k n a same = refl

find-chosen_other :
    {A : Type 0} (b : Bool) (dst : Map A) (k n : Bytes) (a : A)
    → same_text k n ≡ false
    → find (if b then put dst k a else dst) n ≡ find dst n
find-chosen_other true dst k n a apart = find-put_other dst k n a apart
find-chosen_other false dst k n a apart = refl

find-copy_selected :
    {A : Type 0} (sel : Bytes → Bool) (src dst : Map A) (n : Bytes)
    → DistinctKeys src
    → find (copy_selected sel src dst) n ≡ preferred (sel n) (find src n) (find dst n)
unfolding copy_selected find
find-copy_selected sel [] dst n d = sym (preferred-none (sel n) (find dst n))
find-copy_selected sel ((k, a) ∷ src) dst n (fresh, d) =
    let dst' = if sel k then put dst k a else dst in
    let later = find-copy_selected sel src dst' n d in
    elim (Bool-cases (same_text k n)) [
      | inl e ↦
          let same : k ≡ n = same_text-eq k n e in
          let gone : find src n ≡ none = ap (find src) (sym same) ∙ fresh in
          rw e (
            later
            ∙ ap (λ o. preferred (sel n) o (find dst' n)) gone
            ∙ preferred-none (sel n) (find dst' n)
            ∙ find-chosen (sel k) dst k n a same
            ∙ ap (λ b. preferred b (some a) (find dst n)) (ap sel same))
      | inr e ↦ rw e (
          later
          ∙ ap (λ o. preferred (sel n) (find src n) o) (find-chosen_other (sel k) dst k n a e))
    ]

-- After CopySelectedSymbolsTo a name stands for the module's symbol if the `use` selects it and the
-- module has it, and for what it was before otherwise; so for values and for types.
pub copy_selected_symbols_to_lem :
    (u : ModuleUse) (dst : Scope) (n : Bytes)
    → DistinctKeys u.scope_pub.valsyms
    → DistinctKeys u.scope_pub.typesyms
    → let copy = copy_selected_symbols_to u dst in
      (find copy.valsyms n
        ≡ preferred (symbol_selected u n) (find u.scope_pub.valsyms n) (find dst.valsyms n))
      × (find copy.typesyms n
          ≡ preferred (symbol_selected u n) (find u.scope_pub.typesyms n) (find dst.typesyms n))
unfolding copy_selected_symbols_to
copy_selected_symbols_to_lem u dst n dv dt = (
  find-copy_selected (symbol_selected u) u.scope_pub.valsyms dst.valsyms n dv,
  find-copy_selected (symbol_selected u) u.scope_pub.typesyms dst.typesyms n dt,
)
