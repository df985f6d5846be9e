-- ===== src/Feeder/Search.antt =====
-- What SearchPattern finds.
use dq_lang.Feeder.Scan.{starts_with, search_loop, search_pattern}
use dq_lang.Feeder.State.{Feeder, Cursor, unread, cursor, advance}
use dq_lang.Prelude.{
  ℕ, zero, suc, ◌+◌, ◌≤◌, ◌<◌, ◌≡◌, inl, inr, refl, Bool, true, false, none, some, [], ◌∷◌, arith,
  Bytes, length, drop, Bool-cases, Option-cases, if◌then◌else◌,
}

-- The pattern stands i bytes into the text, with at least one byte behind it.
abbrev pub Occurs : Bytes → Bytes → ℕ → Type 0
Occurs pattern text i =
    (starts_with pattern (drop i text) ≡ true) × (i + length pattern < length text)

search_loop-none :
    (pattern text : Bytes) (k : Cursor)
    → search_loop pattern text k ≡ none
    → (i : ℕ) → ¬ Occurs pattern text i
unfolding search_loop
search_loop-none pattern [] k h i (here, room) = absurd (omega arith)
search_loop-none pattern (c ∷ cs) k h zero (here, room) = ground arith
search_loop-none pattern (c ∷ cs) k h (suc i) (here, room) =
    search_loop-none pattern cs (advance c k) (ground arith) i (here, omega arith)

search_loop-some :
    (pattern text : Bytes) (k k' : Cursor)
    → search_loop pattern text k ≡ some k'
    → (i : ℕ) × (k'.p ≡ k.p + i) × Occurs pattern text i × ((j : ℕ) → Occurs pattern text j → i ≤ j)
unfolding search_loop
search_loop-some pattern [] k k' h = cc
search_loop-some pattern (c ∷ cs) k k' h = elim (Bool-cases (starts_with pattern (c ∷ cs))) [
  | inl e ↦ (0, ground arith, (e, ground arith), λ j o. omega arith)
  | inr e ↦
      let (i, at, o, least) = search_loop-some pattern cs (advance c k) k' (ground arith) in
      (suc i, omega arith, (o.0, omega (arith, o.1)), first_of_rest e least)
]
  where
    first_of_rest :
        {i : ℕ}
        → starts_with pattern (c ∷ cs) ≡ false
        → ((j : ℕ) → Occurs pattern cs j → i ≤ j)
        → (j : ℕ) → Occurs pattern (c ∷ cs) j
        → suc i ≤ j
    first_of_rest e least zero o = cc
    first_of_rest e least (suc j) o = omega (arith, least j (o.0, omega (arith, o.1)))

-- Where the pattern stands with a byte of the file behind it, SearchPattern succeeds and moves to
-- such a place, the first one, or behind the pattern there if it consumes.
pub search_pattern_found :
    (pattern : Bytes) (consume : Bool) (f : Feeder) (j : ℕ)
    → Occurs pattern (unread f) j
    → ((search_pattern pattern consume f).1 ≡ true)
      × ((i : ℕ) × ((search_pattern pattern consume f).0.curp
            ≡ f.curp + i + (if consume then length pattern else 0))
          × Occurs pattern (unread f) i
          × (i ≤ j))
unfolding search_pattern
search_pattern_found pattern consume f j h =
    elim (Option-cases (search_loop pattern (unread f) (cursor f))) [
      | inl e ↦ absurd (search_loop-none pattern (unread f) (cursor f) e j h)
      | inr (k, e) ↦
          let (i, at, o, least) = search_loop-some pattern (unread f) (cursor f) k e in
          (rw e refl, (i, rw e (ground arith), o, least j h))
    ]

-- Where it fails it changes nothing and the pattern stands nowhere with a byte of the file behind
-- it: a pattern that ends the file is not found.
pub search_pattern_missed :
    (pattern : Bytes) (consume : Bool) (f : Feeder)
    → (search_pattern pattern consume f).1 ≡ false
    → (i : ℕ) → ((search_pattern pattern consume f).0 ≡ f) × (¬ Occurs pattern (unread f) i)
unfolding search_pattern
search_pattern_missed pattern consume f h i =
    elim (Option-cases (search_loop pattern (unread f) (cursor f))) [
      | inl e ↦ (rw e refl, search_loop-none pattern (unread f) (cursor f) e i)
      | inr (k, e) ↦ ground arith
    ]
