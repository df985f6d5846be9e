-- ===== src/ModulePath/ItemLaws.antt =====
-- Split, Join and the module id against each other.
use dq_lang.ModulePath.Items.{
  slash, keep, split_from, split, join_loop, join, module_id_from_package_local, package_local,
}
use dq_lang.Prelude.{
  ℕ, ◌<◌, ◌≡◌, ◌≢◌, refl, sym, ◌∙◌, ap, inl, inr, false, List, [], ◌∷◌, ◌++◌, append_assoc,
  append-nil, arith, Bytes, length, length-append, All, All-append, Bool-cases, ◌==◌, ==_ne,
  same_text, same_text-eq,
}

-- An item of a path: not empty, with no slash.
abbrev pub IsItem : Bytes → Type 0
IsItem item = (0 < length item) × All (λ c. c ≢ slash) item

keep-IsItem :
    (item : Bytes) (later : List Bytes)
    → All (λ c. c ≢ slash) item
    → All IsItem later
    → All IsItem (keep item later)
keep-IsItem [] later h hs = hs
keep-IsItem (c ∷ cs) later h hs = ((omega arith, h), hs)

==_apart : (a b : ℕ) → (a == b) ≡ false → a ≢ b
==_apart a b e = ground arith

split_from-IsItem :
    (item path : Bytes) → All (λ c. c ≢ slash) item → All IsItem (split_from item path)
unfolding split_from
split_from-IsItem [] [] h = tt
split_from-IsItem (x ∷ xs) [] h = ((omega arith, h), tt)
split_from-IsItem item (c ∷ cs) h = elim (Bool-cases (c == slash)) [
  | inl e ↦ rw e (keep-IsItem item (split_from [] cs) h (split_from-IsItem [] cs tt))
  | inr e ↦ rw e (
      split_from-IsItem (item ++ c ∷ []) cs
        (All-append (λ x. x ≢ slash) item (c ∷ []) h (==_apart c slash e, tt)))
]

-- Split gives items that are not empty and hold no slash.
pub split-IsItem : (path : Bytes) → All IsItem (split path)
unfolding split
split-IsItem path = split_from-IsItem [] path tt

split_from-append :
    (item more rest : Bytes)
    → All (λ c. c ≢ slash) more
    → split_from item (more ++ rest) ≡ split_from (item ++ more) rest
unfolding split_from
split_from-append item [] rest h = ap (λ i. split_from i rest) (sym (append-nil item))
split_from-append item (c ∷ cs) rest (hc, h) = rw (==_ne c slash hc) (
    split_from-append (item ++ c ∷ []) cs rest h
    ∙ ap (λ i. split_from i rest) (append_assoc item (c ∷ []) cs))

-- The items with a slash in front of each.
abbrev slashed : List Bytes → Bytes
slashed [] = []
slashed (item ∷ items) = slash ∷ (item ++ slashed items)

join_loop-slashed :
    (result : Bytes) (items : List Bytes)
    → 0 < length result
    → join_loop result items ≡ result ++ slashed items
unfolding join_loop
join_loop-slashed result [] pos = sym (append-nil result)
join_loop-slashed result (item ∷ items) pos =
    let longer : 0 < length ((result ++ slash ∷ []) ++ item) = omega (
      arith,
      length-append {0} (result ++ slash ∷ []) item,
      length-append {0} result (slash ∷ []),
    ) in
    rw (==_ne (length result) 0 (omega arith)) (
      join_loop-slashed ((result ++ slash ∷ []) ++ item) items longer
      ∙ append_assoc (result ++ slash ∷ []) item (slashed items)
      ∙ append_assoc result (slash ∷ []) (item ++ slashed items))

keep-full : (item : Bytes) (later : List Bytes) → 0 < length item → keep item later ≡ item ∷ later
keep-full [] later h = absurd (omega arith)
keep-full (c ∷ cs) later h = refl

split_from-slashed :
    (item : Bytes) (items : List Bytes)
    → 0 < length item
    → All IsItem items
    → split_from item (slashed items) ≡ item ∷ items
unfolding split_from
split_from-slashed item [] pos h = keep-full item [] pos
split_from-slashed item (next ∷ items) pos ((next_pos, no_slash), h) =
    keep-full item (split_from [] (next ++ slashed items)) pos
    ∙ ap (◌∷◌ item) (
        split_from-append [] next (slashed items) no_slash
        ∙ split_from-slashed next items next_pos h)

-- Items that Join puts together come back from Split.
pub split-join : (items : List Bytes) → All IsItem items → split (join items 0) ≡ items
unfolding split join
split-join [] h = unfold join_loop in unfold split_from in refl
split-join (item ∷ items) ((pos, no_slash), h) =
    ap (split_from []) (join_loop-slashed item items pos)
    ∙ split_from-append [] item (slashed items) no_slash
    ∙ split_from-slashed item items pos h

split_name : (name : Bytes) → IsItem name → split name ≡ name ∷ []
unfolding join join_loop
split_name name h = split-join (name ∷ []) (h, tt)

split_full :
    (name item : Bytes) (items : List Bytes)
    → IsItem name
    → All IsItem (item ∷ items)
    → split ((name ++ slash ∷ []) ++ join (item ∷ items) 0) ≡ name ∷ item ∷ items
unfolding join
split_full name item items (pos, no_slash) ((item_pos, item_fine), h) =
    let joined : (name ++ slash ∷ []) ++ join_loop item items ≡ join_loop name (item ∷ items) =
      ap (λ b. (name ++ slash ∷ []) ++ b) (join_loop-slashed item items item_pos)
      ∙ append_assoc name (slash ∷ []) (item ++ slashed items)
      ∙ sym (join_loop-slashed name (item ∷ items) pos) in
    ap split joined ∙ split-join (name ∷ item ∷ items) ((pos, no_slash), ((item_pos, item_fine), h))

-- The package and the local path of a module come back from its module id, by the rule of
-- ResolveFrom and ResolveCanonicalSource, if the package is an item and the local path is joined
-- from items.
pub package_local-module_id :
    (name : Bytes) (item : Bytes) (items : List Bytes)
    → IsItem name
    → All IsItem (item ∷ items)
    → let local = join (item ∷ items) 0 in
      (first : Bytes) × (later : List Bytes) × (split (module_id_from_package_local name local)
        ≡ first ∷ later)
      × (package_local first later ≡ (name, local))
unfolding module_id_from_package_local package_local
package_local-module_id name item items hn h =
    let local = join (item ∷ items) 0 in
    elim (Bool-cases (same_text local name)) [
      | inl e ↦ (
        name,
        [],
        rw e (split_name name hn),
        ap (λ t. (name, t)) (sym (same_text-eq local name e)),
      )
      | inr e ↦ (name, item ∷ items, rw e (split_full name item items hn h), refl)
    ]
