-- ===== src/ModulePath/NormalizeLaws.antt =====
-- NormalizeLocalPath: a path is refused where it goes above the root.
use dq_lang.ModulePath.ItemLaws.{IsItem}
use dq_lang.ModulePath.Items.{push_front, pop_back, Normalized, normalize_loop, refused, kept}
use dq_lang.ModulePath.Climbs.{
  IsName, is_up, ups, downs, Climbs, up_text, Climbs-nil, Climbs-behind, Climbs-ahead,
  true_not_false, dot_no_up, ups-up, ups-other, downs-up, downs-dot, downs-name,
}
use dq_lang.Prelude.{
  ℕ, suc, ◌+◌, ◌≤◌, ◌<◌, ◌≡◌, refl, ap, ◌⊎◌, inl, inr, true, false, some, List, [], ◌∷◌, ◌++◌,
  arith, ◌==◌, Bool-cases, length, length-append, All, All-append, codes, same_text, Bytes,
}

pub pop_back-some :
    (P : Bytes → Type 0) (items : List Bytes)
    → 0 < length items
    → All P items
    → (rest : List Bytes) × (pop_back items ≡ some rest)
      × All P rest
      × (length items ≡ suc (length rest))
unfolding pop_back
pop_back-some P [] pos h = absurd (omega arith)
pop_back-some P (item ∷ []) pos h = ([], refl, tt, refl)
pop_back-some P (item ∷ next ∷ items) pos (p, h) =
    let (rest, e, fine, longer) = pop_back-some P (next ∷ items) (omega arith) h in
    (item ∷ rest, ap (push_front item) e, (p, fine), ap suc longer)

-- What the loop gives, from a stack of this depth.
abbrev pub Outcome : ℕ → List Bytes → Normalized → Type 0
Outcome depth items out =
    ((out ≡ refused) × Climbs depth items)
    ⊎ ((result : List Bytes) × (out ≡ kept result)
        × All IsName result
        × (length result + ups items ≡ depth + downs items)
        × ¬ Climbs depth items)

Outcome-behind :
    (item : Bytes) (items : List Bytes) (depth deeper : ℕ) (out : Normalized)
    → ((before : List Bytes)
        → deeper + downs before ≤ ups before
        → depth + downs (item ∷ before) ≤ ups (item ∷ before))
    → ((before : List Bytes)
        → depth + downs (item ∷ before) ≤ ups (item ∷ before)
        → deeper + downs before ≤ ups before)
    → (is_up item ≡ true → 0 < depth)
    → ((n : ℕ)
        → n + ups items ≡ deeper + downs items
        → n + ups (item ∷ items) ≡ depth + downs (item ∷ items))
    → Outcome deeper items out
    → Outcome depth (item ∷ items) out
Outcome-behind item items depth deeper out more less above count (inl (e, c)) =
    inl (e, Climbs-behind item items depth deeper more c)
Outcome-behind item items depth deeper out more less above count
      (inr (result, e, fine, size, below)) =
    inr (
      result,
      e,
      fine,
      count (length result) size,
      λ c. below (Climbs-ahead item items depth deeper less above c),
    )

loop-dot :
    (item : Bytes) (items stack : List Bytes)
    → same_text (codes ".") item ≡ true
    → normalize_loop (item ∷ items) stack ≡ normalize_loop items stack
unfolding normalize_loop
loop-dot item items stack h = rw h refl

loop-bottom :
    (item : Bytes) (items : List Bytes)
    → same_text (codes ".") item ≡ false
    → is_up item ≡ true
    → normalize_loop (item ∷ items) [] ≡ refused
unfolding normalize_loop
loop-bottom item items h k = rw (h, k) refl

loop-up :
    (item : Bytes) (items stack rest : List Bytes)
    → same_text (codes ".") item ≡ false
    → is_up item ≡ true
    → (length stack == 0) ≡ false
    → pop_back stack ≡ some rest
    → normalize_loop (item ∷ items) stack ≡ normalize_loop items rest
unfolding normalize_loop
loop-up item items stack rest h k full popped = rw (h, k, full, popped) refl

loop-name :
    (item : Bytes) (items stack : List Bytes)
    → same_text (codes ".") item ≡ false
    → is_up item ≡ false
    → normalize_loop (item ∷ items) stack ≡ normalize_loop items (stack ++ item ∷ [])
unfolding normalize_loop
loop-name item items stack h k = rw (h, k) refl

-- A `..`: the step up is refused exactly at the bottom.
up_Outcome :
    (item : Bytes) (items stack : List Bytes)
    → All IsName stack
    → is_up item ≡ true
    → same_text (codes ".") item ≡ false
    → ((rest : List Bytes)
        → All IsName rest
        → Outcome (length rest) items (normalize_loop items rest))
    → Outcome (length stack) (item ∷ items) (normalize_loop (item ∷ items) stack)
up_Outcome item items [] hs up no_dot later = inl (
  loop-bottom item items no_dot up,
  (
    [],
    items,
    ap (λ (i : Bytes). i ∷ items) (up_text item up),
    unfold ups in unfold downs in omega arith,
  ),
)
up_Outcome item items (s ∷ ss) hs up no_dot later =
    let (rest, popped, fine, size) = pop_back-some IsName (s ∷ ss) (omega arith) hs in
    let same = loop-up item items (s ∷ ss) rest no_dot up (ground arith) popped in
    rw same (
      Outcome-behind item items (length (s ∷ ss)) (length rest) (normalize_loop items rest)
        (λ before k. omega (arith, ups-up item before up, downs-up item before up, size, k))
        (λ before k. omega (arith, ups-up item before up, downs-up item before up, size, k))
        (λ u. omega arith)
        (λ n k. omega (arith, ups-up item items up, downs-up item items up, size, k))
        (later rest fine))

pub normalize_loop-Outcome :
    (items stack : List Bytes)
    → All IsName stack
    → All IsItem items
    → Outcome (length stack) items (normalize_loop items stack)
normalize_loop-Outcome [] stack hs h = inr (
  stack,
  unfold normalize_loop in refl,
  hs,
  unfold ups in unfold downs in omega arith,
  Climbs-nil (length stack),
)
normalize_loop-Outcome (item ∷ items) stack hs (hi, h) =
    elim (Bool-cases (same_text (codes ".") item)) [
      | inl dot ↦
          let no_up : is_up item ≡ false = dot_no_up item dot in
          rw (loop-dot item items stack dot) (
            Outcome-behind item items (length stack) (length stack) (normalize_loop items stack)
              (λ before k. omega (arith, ups-other item before no_up, downs-dot item before dot, k))
              (λ before k. omega (arith, ups-other item before no_up, downs-dot item before dot, k))
              (λ up. absurd (true_not_false (is_up item) up no_up))
              (λ n k. omega (arith, ups-other item items no_up, downs-dot item items dot, k))
              (normalize_loop-Outcome items stack hs h))
      | inr no_dot ↦ elim (Bool-cases (is_up item)) [
        | inl up ↦
            up_Outcome item items stack hs up no_dot
              (λ rest fine. normalize_loop-Outcome items rest fine h)
        | inr no_up ↦
            let next = stack ++ item ∷ [] in
            let longer : length next ≡ suc (length stack) =
              omega (arith, length-append {0} stack (item ∷ [])) in
            rw (loop-name item items stack no_dot no_up) (
              Outcome-behind item items (length stack) (length next) (normalize_loop items next)
                (λ before k. omega (
                  arith,
                  ups-other item before no_up,
                  downs-name item before no_dot no_up,
                  longer,
                  k,
                ))
                (λ before k. omega (
                  arith,
                  ups-other item before no_up,
                  downs-name item before no_dot no_up,
                  longer,
                  k,
                ))
                (λ up. absurd (true_not_false (is_up item) up no_up))
                (λ n k. omega (
                  arith,
                  ups-other item items no_up,
                  downs-name item items no_dot no_up,
                  longer,
                  k,
                ))
                (normalize_loop-Outcome items next
                  (All-append IsName stack (item ∷ []) hs ((hi, no_dot, no_up), tt)) h))
      ]
    ]
