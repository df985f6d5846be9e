-- ===== src/Tests/Paths.antt =====
-- Module paths: compiler/ast/module_path.cpp.
use dq_lang.ModulePath.ItemLaws.{package_local-module_id}
use dq_lang.ModulePath.Items.{split, split_from, join, module_id_from_package_local, package_local}
use dq_lang.ModulePath.Resolve.{FileSystem, Options, local_relative, ModulePath, resolve_from}
use dq_lang.ModulePath.ResolveLaws.{resolve_from_relative, Resolves}
use dq_lang.Prelude.{◌≡◌, refl, List, [], ◌∷◌, ◌++◌, arith, Bytes, codes, same_text}

-- Paths as texts; one directory exists.
abbrev files : FileSystem Bytes
files = record {
  of_text = λ t. t;
  child = λ p item. (p ++ codes "/") ++ item;
  extended = λ p t. p ++ t;
  lexically_normal = λ p. p;
  abs_norm_path = λ p. p;
  is_directory = λ p. same_text p (codes "/pkg/rtl");
  same_path = same_text;
  current_path = codes "/w";
}

abbrev options : Options
options = record {
  build_root_dir = [];
  package_build_root_dir = [];
  build_tag = [];
  package_paths = codes "/pkg" ∷ codes "/other" ∷ [];
}

abbrev blank : ModulePath Bytes
blank = record {
  source_text = codes "../b/./c";
  namespace_name = codes "c";
  kind = local_relative;
  root_dir = [];
  package_name = [];
  local_path = [];
  module_id = [];
  source_path = [];
  artifact_path = [];
  interface_artifact_path = [];
}

abbrev current : ModulePath Bytes
current = record blank {
  package_name = codes "app";
  local_path = codes "x/y";
  root_dir = codes "/w/app";
}

package_local-module_id_example :
    (first : Bytes) × (later : List Bytes) × (split
        (module_id_from_package_local (codes "app") (join (codes "b" ∷ codes "c" ∷ []) 0))
      ≡ first ∷ later)
    × (package_local first later ≡ (codes "app", join (codes "b" ∷ codes "c" ∷ []) 0))
package_local-module_id_example =
    package_local-module_id (codes "app") (codes "b") (codes "c" ∷ []) (ground arith) (ground arith)

resolve_from_relative_example :
    Resolves files options blank current (resolve_from files options blank current)
resolve_from_relative_example =
    resolve_from_relative files options blank current refl
      (unfold split in unfold split_from in ground arith)
