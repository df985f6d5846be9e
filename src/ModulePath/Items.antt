-- ===== src/ModulePath/Items.antt =====
-- Split, Join, ModuleIdFromPackageLocal and NormalizeLocalPath: paths as lists of items.
use dq_lang.Prelude.{
  ℕ, Option, none, some, List, [], ◌∷◌, ◌++◌, Bytes, length, drop, ◌==◌, if◌then◌else◌, codes,
  same_text,
}

abbrev pub slash : ℕ
slash = b'/'

-- An empty item is left out.
abbrev pub keep : Bytes → List Bytes → List Bytes
keep [] later = later
keep (c ∷ cs) later = (c ∷ cs) ∷ later

-- The items of a path; the first argument is what was read of the current one.
unfoldable pub split_from : Bytes → Bytes → List Bytes
split_from item [] = keep item []
split_from item (c ∷ cs) =
    let next = keep item (split_from [] cs) in
    let longer = split_from (item ++ c ∷ []) cs in if c == slash then next else longer

unfoldable pub split : Bytes → List Bytes
unfolding split_from
split path = split_from [] path

unfoldable pub join_loop : Bytes → List Bytes → Bytes
join_loop result [] = result
join_loop result (item ∷ items) =
    join_loop ((if length result == 0 then result else result ++ slash ∷ []) ++ item) items

unfoldable pub join : List Bytes → ℕ → Bytes
unfolding join_loop
join items start = join_loop [] (drop start items)

unfoldable pub module_id_from_package_local : Bytes → Bytes → Bytes
module_id_from_package_local package_name local_path =
    if same_text local_path package_name
    then package_name
    else (package_name ++ slash ∷ []) ++ local_path

-- parts[0] and the rest of a package's path: a path of one item names the package and the module.
unfoldable pub package_local : Bytes → List Bytes → Bytes × Bytes
unfolding join
package_local package_name [] = (package_name, package_name)
package_local package_name (item ∷ items) = (package_name, join (package_name ∷ item ∷ items) 1)

abbrev pub push_front : Bytes → Option (List Bytes) → Option (List Bytes)
push_front item none = none
push_front item (some items) = some (item ∷ items)

-- vector::pop_back, which is undefined on an empty vector: `none`.
unfoldable pub pop_back : List Bytes → Option (List Bytes)
pop_back [] = none
pop_back (item ∷ []) = some []
pop_back (item ∷ next ∷ items) = push_front item (pop_back (next ∷ items))

-- What NormalizeLocalPath gives: `undefined` for a pop_back of an empty stack, `refused` for the error.
pub data Normalized : Type 0 where
  undefined refused : Normalized
  kept : List Bytes → Normalized

abbrev pub then_loop : (List Bytes → Normalized) → Option (List Bytes) → Normalized
then_loop again none = undefined
then_loop again (some stack) = again stack

-- The loop of NormalizeLocalPath, on the suffix and the stack.
unfoldable pub normalize_loop : List Bytes → List Bytes → Normalized
unfolding pop_back
normalize_loop [] stack = kept stack
normalize_loop (item ∷ items) stack =
    let skipped = normalize_loop items stack in
    let popped = then_loop (normalize_loop items) (pop_back stack) in
    let pushed = normalize_loop items (stack ++ item ∷ []) in
    if same_text (codes ".") item
    then skipped
    else if same_text (codes "..") item
    then (if length stack == 0 then refused else popped)
    else pushed

abbrev pub not_empty : Normalized → Normalized
not_empty undefined = undefined
not_empty refused = refused
not_empty (kept []) = refused
not_empty (kept (item ∷ items)) = kept (item ∷ items)

unfoldable pub normalize_local_path : List Bytes → List Bytes → Normalized
unfolding normalize_loop
normalize_local_path stack suffix = not_empty (normalize_loop suffix stack)
