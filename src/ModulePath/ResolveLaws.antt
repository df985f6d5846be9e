-- ===== src/ModulePath/ResolveLaws.antt =====
-- A relative `use` stays inside the root of the module that it stands in.
use dq_lang.ModulePath.ItemLaws.{IsItem, split-IsItem, split-join}
use dq_lang.ModulePath.Items.{
  split, join, normalize_loop, not_empty, normalize_local_path, Normalized, kept,
}
use dq_lang.ModulePath.Climbs.{IsName, ups, downs, Climbs}
use dq_lang.ModulePath.NormalizeLaws.{pop_back-some, Outcome, normalize_loop-Outcome}
use dq_lang.ModulePath.Resolve.{
  FileSystem, Options, Kind, package_path, local_relative, root_relative, is_package, candidate,
  resolve_package_root, ModulePath, drop_root, start_stack, suffix_of, resolved, resolve_stack,
  resolve_local, resolve_from, parent_of,
}
use dq_lang.Prelude.{
  ◌≡◌, ◌≢◌, refl, inl, inr, ◌⊎◌, false, Option, some, List, [], ◌∷◌, ◌++◌, arith, Bytes, All,
  Bool-cases, codes, same_text, if◌then◌else◌, ℕ, ◌+◌, length, ◌-◌,
}

drop_root-IsItem : (items : List Bytes) → All IsItem items → All IsItem (drop_root items)
drop_root-IsItem [] h = tt
drop_root-IsItem (item ∷ items) (hi, h) = elim (Bool-cases (same_text item (codes "^"))) [
  | inl e ↦ rw e h
  | inr e ↦ rw e (hi, h)
]

suffix_of-IsItem : (k : Kind) (text : Bytes) → All IsItem (suffix_of k text)
suffix_of-IsItem package_path text = split-IsItem text
suffix_of-IsItem local_relative text = split-IsItem text
suffix_of-IsItem root_relative text = drop_root-IsItem (split text) (split-IsItem text)

-- How far below its root a module's directory is, for a path that starts there.
unfoldable pub depth_of : Kind → Bytes → ℕ
depth_of local_relative local = length (split local) - 1
depth_of _ local = 0

parent-IsName :
    (items : List Bytes)
    → All IsName items
    → (stack : List Bytes) × (parent_of items ≡ some stack)
      × All IsName stack
      × (length stack ≡ length items - 1)
parent-IsName [] h = ([], refl, tt, refl)
parent-IsName (item ∷ items) h =
    let (rest, e, fine, size) = pop_back-some IsName (item ∷ items) (omega arith) h in
    (rest, e, fine, omega (arith, size))

start_stack-IsName :
    (k : Kind) (local : Bytes)
    → All IsName (split local)
    → (stack : List Bytes) × (start_stack k local ≡ some stack)
      × All IsName stack
      × (length stack ≡ depth_of k local)
unfolding depth_of
start_stack-IsName package_path local h = ([], refl, tt, refl)
start_stack-IsName local_relative local h = parent-IsName (split local) h
start_stack-IsName root_relative local h = ([], refl, tt, refl)

IsName-IsItem : (items : List Bytes) → All IsName items → All IsItem items
IsName-IsItem [] h = tt
IsName-IsItem (item ∷ items) (hi, h) = (hi.0, IsName-IsItem items h)

cons_nil : {item : Bytes} {items : List Bytes} → ¬ (item ∷ items ≡ [])
cons_nil h = cc

-- A path is refused: it goes above the root, or ends at it.
abbrev pub Refused : ℕ → List Bytes → Type 0
Refused depth suffix = Climbs depth suffix ⊎ (ups suffix ≡ depth + downs suffix)

module _ {FilePath : Type 0} (fs : FileSystem FilePath) (opt : Options) where
  -- The module is in the package and under the root of the current one, and its local path is one or
  -- more names, as many as the path leaves.
  abbrev pub Stays : ModulePath FilePath → ModulePath FilePath → ℕ → List Bytes → Type 0
  Stays current found depth suffix =
      (found.package_name ≡ current.package_name)
      × (found.root_dir ≡ current.root_dir)
      × All IsName (split found.local_path)
      × (split found.local_path ≢ [])
      × (length (split found.local_path) + ups suffix ≡ depth + downs suffix)

  abbrev pub Resolves :
      ModulePath FilePath → ModulePath FilePath → Option (Bytes ⊎ ModulePath FilePath) → Type 0
  Resolves m current out =
      let depth = depth_of m.kind current.local_path in
      let suffix = suffix_of m.kind m.source_text in
      ((out ≡ some (inl m.source_text)) × Refused depth suffix)
      ⊎ ((found : ModulePath FilePath) × (out ≡ some (inr found))
          × ¬ Climbs depth suffix
          × Stays current found depth suffix)

  stack_Resolves :
      (m current : ModulePath FilePath) (result : List Bytes)
      → let depth = depth_of m.kind current.local_path in
        let suffix = suffix_of m.kind m.source_text in
        All IsName result
        → length result + ups suffix ≡ depth + downs suffix
        → ¬ Climbs depth suffix
        → Resolves m current (resolve_stack fs opt m current (not_empty (kept result)))
  stack_Resolves m current [] fine size below = inl (refl, inr (omega arith))
  stack_Resolves m current (item ∷ items) fine size below =
      let back = split-join (item ∷ items) (IsName-IsItem (item ∷ items) fine) in
      let found = resolved fs opt m current.package_name (join (item ∷ items) 0) current.root_dir in
      let local : split found.local_path ≡ item ∷ items = unfold resolved in back in
      inr (
        found,
        refl,
        below,
        (
          unfold resolved in refl,
          unfold resolved in refl,
          rw local fine,
          rw local (λ nil. cons_nil nil),
          rw local size,
        ),
      )

  outcome_Resolves :
      (m current : ModulePath FilePath) (out : Normalized)
      → Outcome (depth_of m.kind current.local_path) (suffix_of m.kind m.source_text) out
      → Resolves m current (resolve_stack fs opt m current (not_empty out))
  outcome_Resolves m current out (inl (e, climbs)) = rw e (inl (refl, inl climbs))
  outcome_Resolves m current out (inr (result, e, fine, size, below)) =
      rw e (stack_Resolves m current result fine size below)

  resolve_local_lem :
      (m current : ModulePath FilePath)
      → All IsName (split current.local_path)
      → Resolves m current (resolve_local fs opt m current)
  unfolding resolve_local normalize_local_path
  resolve_local_lem m current fine =
      let (stack, e, stack_fine, size) = start_stack-IsName m.kind current.local_path fine in
      let suffix = suffix_of m.kind m.source_text in
      let loop =
        normalize_loop-Outcome suffix stack stack_fine (suffix_of-IsItem m.kind m.source_text) in
      let out : Outcome (depth_of m.kind current.local_path) suffix (normalize_loop suffix stack) =
        rw size at loop in
      rw e (outcome_Resolves m current (normalize_loop suffix stack) out)

  -- From a module whose local path is made of names, ResolveFrom refuses a relative path exactly if
  -- the path goes above the root at one of its `..`, or ends at the root. Otherwise the module found
  -- is in the same package and under the same root, and its local path is made of one or more names,
  -- as many as the directories and names that the path leaves.
  pub resolve_from_relative :
      (m current : ModulePath FilePath)
      → is_package m.kind ≡ false
      → All IsName (split current.local_path)
      → Resolves m current (resolve_from fs opt m current)
  unfolding resolve_from
  resolve_from_relative m current relative fine =
      let chosen : resolve_from fs opt m current ≡ resolve_local fs opt m current =
        rw relative refl in
      rw chosen (resolve_local_lem m current fine)

  -- A package path that is added at the end goes first: its package is found if it is a directory,
  -- and else the one that the paths before give.
  pub resolve_package_root-append :
      (paths : List Bytes) (last name : Bytes)
      → resolve_package_root fs opt (paths ++ last ∷ []) name ≡ (
          if fs.is_directory (candidate fs opt last name)
          then some (candidate fs opt last name)
          else resolve_package_root fs opt paths name)
  unfolding resolve_package_root
  resolve_package_root-append [] last name = refl
  resolve_package_root-append (p ∷ ps) last name =
      rw (resolve_package_root-append ps last name)
        (elim (Bool-cases (fs.is_directory (candidate fs opt last name))) [
          | inl e ↦ rw e refl
          | inr e ↦ rw e refl
        ])
