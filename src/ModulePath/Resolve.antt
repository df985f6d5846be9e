-- ===== src/ModulePath/Resolve.antt =====
-- OModulePath: ParseUsePath and ResolveFrom, with the paths of the file system as a parameter.
use dq_lang.Feeder.Scan.{starts_with}
use dq_lang.ModulePath.Items.{
  split, join, module_id_from_package_local, package_local, pop_back, normalize_local_path,
  Normalized, undefined, refused, kept,
}
use dq_lang.Prelude.{
  Bool, true, false, ◌||◌, Option, none, some, ◌⊎◌, inl, inr, List, [], ◌∷◌, Bytes, length, ◌==◌,
  if◌then◌else◌, codes, same_text,
}

-- filesystem::path and the operations on it that are used here.
pub record FileSystem (FilePath : Type 0) : Type 0 where
  pub of_text : Bytes → FilePath
  pub child : FilePath → Bytes → FilePath
  pub extended : FilePath → Bytes → FilePath
  pub lexically_normal : FilePath → FilePath
  pub abs_norm_path : FilePath → FilePath
  pub is_directory : FilePath → Bool
  pub same_path : FilePath → FilePath → Bool
  pub current_path : FilePath

-- The fields of g_opt.
pub record Options : Type 0 where
  pub build_root_dir : Bytes
  pub package_build_root_dir : Bytes
  pub build_tag : Bytes
  pub package_paths : List Bytes

pub data Kind : Type 0 where
  package_path local_relative root_relative : Kind

abbrev pub is_package : Kind → Bool
is_package package_path = true
is_package _ = false

pub record ModulePath (FilePath : Type 0) : Type 0 where
  pub source_text : Bytes
  pub namespace_name : Bytes
  pub kind : Kind
  pub root_dir : FilePath
  pub package_name : Bytes
  pub local_path : Bytes
  pub module_id : Bytes
  pub source_path : FilePath
  pub artifact_path : FilePath
  pub interface_artifact_path : FilePath

abbrev pub last_item : Bytes → List Bytes → Bytes
last_item item [] = item
last_item item (next ∷ items) = last_item next items

abbrev pub kind_of : Bytes → Kind
kind_of text =
    if starts_with (codes "./") text || starts_with (codes "../") text
    then local_relative
    else if starts_with (codes "^/") text
    then root_relative
    else package_path

-- suffix.erase(suffix.begin()) for a first item `^`.
abbrev pub drop_root : List Bytes → List Bytes
drop_root [] = []
drop_root (item ∷ items) = if same_text item (codes "^") then items else item ∷ items

-- if (!stack.empty()) stack.pop_back();
abbrev pub parent_of : List Bytes → Option (List Bytes)
parent_of [] = some []
parent_of (item ∷ items) = pop_back (item ∷ items)

abbrev pub start_stack : Kind → Bytes → Option (List Bytes)
start_stack local_relative local_path = parent_of (split local_path)
start_stack _ local_path = some []

abbrev pub suffix_of : Kind → Bytes → List Bytes
suffix_of root_relative text = drop_root (split text)
suffix_of _ text = split text

module _ {FilePath : Type 0} (fs : FileSystem FilePath) (opt : Options) where
  abbrev pub add_items : FilePath → List Bytes → FilePath
  add_items p [] = p
  add_items p (item ∷ items) = add_items (fs.child p item) items

  unfoldable pub source_path_for_local : FilePath → Bytes → FilePath
  unfolding split
  source_path_for_local root local =
      fs.lexically_normal (fs.extended (add_items root (split local)) (codes ".dq"))

  abbrev pub build_root : FilePath
  build_root =
      if length opt.build_root_dir == 0
      then fs.abs_norm_path fs.current_path
      else fs.abs_norm_path (fs.of_text opt.build_root_dir)

  abbrev pub package_build_root : FilePath
  package_build_root =
      if length opt.package_build_root_dir == 0
      then build_root
      else fs.abs_norm_path (fs.of_text opt.package_build_root_dir)

  -- BuildTagDir and PackageBuildTagDir, by their root.
  abbrev pub tag_dir : FilePath → FilePath
  tag_dir root =
      let tag = if length opt.build_tag == 0 then codes "default" else opt.build_tag in
      fs.lexically_normal (fs.child (fs.child root (codes ".dqbuild")) tag)

  abbrev pub candidate : Bytes → Bytes → FilePath
  candidate dir name = fs.abs_norm_path (fs.child (fs.of_text dir) name)

  unfoldable pub is_package_root : List Bytes → Bytes → FilePath → Bool
  is_package_root [] name root = false
  is_package_root (p ∷ ps) name root =
      let later = is_package_root ps name root in
      if fs.same_path (candidate p name) (fs.abs_norm_path root) then true else later

  -- The package paths from the last to the first.
  unfoldable pub resolve_package_root : List Bytes → Bytes → Option FilePath
  resolve_package_root [] name = none
  resolve_package_root (p ∷ ps) name = elim (resolve_package_root ps name) [
    | some found ↦ some found
    | none ↦ if fs.is_directory (candidate p name) then some (candidate p name) else none
  ]

  unfoldable pub build_artifact_path_for_module : Bytes → Bytes → FilePath → Bool → FilePath
  unfolding split
  build_artifact_path_for_module name local root interface_only =
      let in_package = is_package_root opt.package_paths name root in
      let dir =
        if in_package
        then fs.child (fs.child (tag_dir package_build_root) (codes "pkg")) name
        else fs.child (tag_dir build_root) (codes "local") in
      let ext = if interface_only then codes ".dqm_if" else codes ".o" in
      fs.lexically_normal (fs.extended (add_items dir (split local)) ext)

  -- Clear, and what ParseUsePath sets; `empty_path` is a default path. An error carries
  -- its text, and the object that a failure leaves behind is not kept.
  unfoldable pub parse_use_path : FilePath → Bytes → Bytes ⊎ ModulePath FilePath
  unfolding split
  parse_use_path empty_path text = elim (split text) [
    | [] ↦ inl text
    | item ∷ items ↦ inr (record {
      source_text = text;
      namespace_name = last_item item items;
      kind = kind_of text;
      root_dir = empty_path;
      package_name = [];
      local_path = [];
      module_id = [];
      source_path = empty_path;
      artifact_path = empty_path;
      interface_artifact_path = empty_path;
    })
  ]

  -- The end of ResolveFrom, which sets the resolved fields.
  unfoldable pub resolved : ModulePath FilePath → Bytes → Bytes → FilePath → ModulePath FilePath
  unfolding module_id_from_package_local
  resolved m name local root = record m {
    package_name = name;
    local_path = local;
    root_dir = root;
    module_id = module_id_from_package_local name local;
    source_path = source_path_for_local root local;
    artifact_path = build_artifact_path_for_module name local root false;
    interface_artifact_path = build_artifact_path_for_module name local root true;
  }

  unfoldable pub resolve_package : ModulePath FilePath → Bytes ⊎ ModulePath FilePath
  unfolding split package_local
  resolve_package m = elim (split m.source_text) [
    | [] ↦ inl m.source_text
    | item ∷ items ↦ elim (resolve_package_root opt.package_paths item) [
      | none ↦ inl item
      | some root ↦ inr (resolved m item (package_local item items).1 root)
    ]
  ]

  -- A relative path behind NormalizeLocalPath; `none` is undefined behaviour.
  abbrev pub resolve_stack :
      ModulePath FilePath → ModulePath FilePath → Normalized → Option (Bytes ⊎ ModulePath FilePath)
  resolve_stack m current undefined = none
  resolve_stack m current refused = some (inl m.source_text)
  resolve_stack m current (kept stack) =
      some (inr (resolved m current.package_name (join stack 0) current.root_dir))

  abbrev pub from_stack :
      ModulePath FilePath
      → ModulePath FilePath
      → Option (List Bytes)
      → Option (Bytes ⊎ ModulePath FilePath)
  from_stack m current none = none
  from_stack m current (some stack) =
      resolve_stack m current (normalize_local_path stack (suffix_of m.kind m.source_text))

  unfoldable pub resolve_local :
      ModulePath FilePath → ModulePath FilePath → Option (Bytes ⊎ ModulePath FilePath)
  unfolding split pop_back normalize_local_path
  resolve_local m current = from_stack m current (start_stack m.kind current.local_path)

  unfoldable pub resolve_from :
      ModulePath FilePath → ModulePath FilePath → Option (Bytes ⊎ ModulePath FilePath)
  resolve_from m current =
      if is_package m.kind then some (resolve_package m) else resolve_local m current
