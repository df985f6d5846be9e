-- ===== src/Scopes/Maps.antt =====
-- std::map<string, A> as an association list, and its laws.
use dq_lang.Prelude.{
  ◌≡◌, false, Option, none, some, List, [], ◌∷◌, Bytes, same_text, same_text-eq, inl, inr, arith,
  if◌then◌else◌, Bool-cases, same_text_refl,
}

abbrev pub Map : Type 0 → Type 0
Map A = List (Bytes × A)

module _ {A : Type 0} where
  unfoldable pub find : Map A → Bytes → Option A
  find [] n = none
  find ((k, a) ∷ m) n = let rest = find m n in if same_text k n then some a else rest

  -- m[n] = a
  unfoldable pub put : Map A → Bytes → A → Map A
  put [] n a = (n, a) ∷ []
  put ((k, b) ∷ m) n a = let rest = put m n a in if same_text k n then (k, a) ∷ m else (k, b) ∷ rest

  pub find-put : (m : Map A) (n : Bytes) (a : A) → find (put m n a) n ≡ some a
  unfolding find put
  find-put [] n a = rw (same_text_refl n)
  find-put ((k, b) ∷ m) n a = ground (arith, find-put m n a)

  pub find-put_other :
      (m : Map A) (n n' : Bytes) (a : A) → same_text n n' ≡ false → find (put m n a) n' ≡ find m n'
  unfolding find put
  find-put_other [] n n' a h = rw h
  find-put_other ((k, b) ∷ m) n n' a h = elim (Bool-cases (same_text k n)) [
    | inl e ↦
        let same : k ≡ n = same_text-eq k n e in
        let apart : same_text k n' ≡ false = rw same h in rw (e, apart)
    | inr e ↦ rw (e, find-put_other m n n' a h)
  ]
