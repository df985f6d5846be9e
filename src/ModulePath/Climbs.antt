-- ===== src/ModulePath/Climbs.antt =====
-- Paths that go above the root they start under.
use dq_lang.ModulePath.ItemLaws.{IsItem}
use dq_lang.Prelude.{
  ℕ, suc, ◌+◌, ◌≤◌, ◌<◌, ◌≡◌, refl, sym, ap, Bool, true, false, ◌||◌, List, [], ◌∷◌, ◌++◌, arith,
  if◌then◌else◌, codes, same_text, same_text-eq, same_text_refl, Bytes,
}

-- An item that names a directory or a module below: neither `.` nor `..`.
abbrev pub IsName : Bytes → Type 0
IsName item =
    IsItem item × (same_text (codes ".") item ≡ false) × (same_text (codes "..") item ≡ false)

abbrev pub is_up : Bytes → Bool
is_up item = same_text (codes "..") item

-- The items that go up, and those that are names.
unfoldable pub ups : List Bytes → ℕ
ups [] = 0
ups (item ∷ items) = if is_up item then suc (ups items) else ups items

unfoldable pub downs : List Bytes → ℕ
downs [] = 0
downs (item ∷ items) =
    if same_text (codes ".") item || is_up item then downs items else suc (downs items)

-- From this many directories below the root a path goes above it: at some `..` the items before have
-- gone up as often as there are directories and names.
abbrev pub Climbs : ℕ → List Bytes → Type 0
Climbs depth items =
    (before : List Bytes) × (after : List Bytes) × (items ≡ before ++ codes ".." ∷ after)
    × (depth + downs before ≤ ups before)

pub up_text : (item : Bytes) → is_up item ≡ true → item ≡ codes ".."
up_text item h = sym (same_text-eq (codes "..") item h)

head_same : {x y : Bytes} {xs ys : List Bytes} → x ∷ xs ≡ y ∷ ys → x ≡ y
head_same h = cc

tail_same : {x y : Bytes} {xs ys : List Bytes} → x ∷ xs ≡ y ∷ ys → xs ≡ ys
tail_same h = cc

no_nil : {x : Bytes} {xs : List Bytes} → ¬ ([] ≡ x ∷ xs)
no_nil h = cc

pub Climbs-nil : (depth : ℕ) → ¬ Climbs depth []
Climbs-nil depth ([], after, e, h) = no_nil e
Climbs-nil depth (item ∷ before, after, e, h) = no_nil e

-- What climbs behind an item climbs with it.
pub Climbs-behind :
    (item : Bytes) (items : List Bytes) (depth deeper : ℕ)
    → ((before : List Bytes)
        → deeper + downs before ≤ ups before
        → depth + downs (item ∷ before) ≤ ups (item ∷ before))
    → Climbs deeper items
    → Climbs depth (item ∷ items)
Climbs-behind item items depth deeper step (before, after, e, h) =
    (item ∷ before, after, ap (λ (is : List Bytes). item ∷ is) e, step before h)

pub Climbs-ahead :
    (item : Bytes) (items : List Bytes) (depth deeper : ℕ)
    → ((before : List Bytes)
        → depth + downs (item ∷ before) ≤ ups (item ∷ before)
        → deeper + downs before ≤ ups before)
    → (is_up item ≡ true → 0 < depth)
    → Climbs depth (item ∷ items)
    → Climbs deeper items
unfolding ups downs
Climbs-ahead item items depth deeper step above ([], after, e, h) =
    let up : is_up item ≡ true = rw (head_same e) (same_text_refl (codes "..")) in
    absurd (omega (arith, above up, h))
Climbs-ahead item items depth deeper step above (first ∷ before, after, e, h) =
    let same : item ≡ first = head_same e in (before, after, tail_same e, step before (rw same h))

pub true_not_false : (b : Bool) → b ≡ true → b ≡ false → ⊥
true_not_false b h k = cc

pub dot_no_up : (item : Bytes) → same_text (codes ".") item ≡ true → is_up item ≡ false
dot_no_up item h = rw (← same_text-eq (codes ".") item h) refl

pub ups-up :
    (item : Bytes) (items : List Bytes) → is_up item ≡ true → ups (item ∷ items) ≡ suc (ups items)
unfolding ups
ups-up item items h = rw h refl

pub ups-other :
    (item : Bytes) (items : List Bytes) → is_up item ≡ false → ups (item ∷ items) ≡ ups items
unfolding ups
ups-other item items h = rw h refl

pub downs-up :
    (item : Bytes) (items : List Bytes) → is_up item ≡ true → downs (item ∷ items) ≡ downs items
unfolding downs
downs-up item items h = ground arith

pub downs-dot :
    (item : Bytes) (items : List Bytes)
    → same_text (codes ".") item ≡ true
    → downs (item ∷ items) ≡ downs items
unfolding downs
downs-dot item items h = rw h refl

pub downs-name :
    (item : Bytes) (items : List Bytes)
    → same_text (codes ".") item ≡ false
    → is_up item ≡ false
    → downs (item ∷ items) ≡ suc (downs items)
unfolding downs
downs-name item items h k = rw (h, k) refl
