-- ===== src/Calls/Signatures.antt =====
-- Parameters and signatures: OFuncParam and OTypeFunc of compiler/types/otype_func.h, and their
-- types as far as calls depend on them. A type that is no alias is a number, its address.
use dq_lang.Prelude.{
  ℕ, suc, Bool, true, false, not, ◌&&◌, ◌||◌, Option, none, some, List, [], ◌∷◌, ◌==◌,
  if◌then◌else◌, Bytes,
}

pub data ParamMode : Type 0 where
  fpm_value fpm_ref fpm_refin fpm_refout fpm_refnil : ParamMode

unfoldable pub is_ref_like : ParamMode → Bool
is_ref_like fpm_value = false
is_ref_like _ = true

unfoldable pub same_mode : ParamMode → ParamMode → Bool
same_mode fpm_value fpm_value = true
same_mode fpm_ref fpm_ref = true
same_mode fpm_refin fpm_refin = true
same_mode fpm_refout fpm_refout = true
same_mode fpm_refnil fpm_refnil = true
same_mode _ _ = false

-- A type that ResolveAlias returns; a compound has its address, whether it is an object, and the
-- addresses of its base types, the nearest first.
pub data Resolved : Type 0 where
  pointer : ℕ → Bool → Resolved
  compound : ℕ → Bool → List ℕ → Resolved
  other_type : ℕ → Resolved

pub data ParamType : Type 0 where
  resolved : Resolved → ParamType
  alias autofree : ParamType → ParamType

unfoldable pub resolve_alias : ParamType → Resolved
resolve_alias (resolved t) = t
resolve_alias (alias t) = resolve_alias t
resolve_alias (autofree t) = resolve_alias t

-- AsAutoFreeType, with its base type.
unfoldable pub as_autofree : ParamType → Option ParamType
as_autofree (resolved t) = none
as_autofree (alias t) = as_autofree t
as_autofree (autofree t) = some t

abbrev pub address : Resolved → ℕ
address (pointer a opaque) = a
address (compound a is_object bases) = a
address (other_type a) = a

pub record Param : Type 0 where
  pub name : Bytes
  pub ptype : ParamType
  pub mode : ParamMode
  pub has_default : Bool

pub record Signature : Type 0 where
  pub params : List Param
  pub has_varargs : Bool
  pub rettype : Option ParamType

unfoldable pub required_param_count : List Param → ℕ
required_param_count [] = 0
required_param_count (p ∷ ps) =
    let rest = required_param_count ps in if p.has_default then 0 else suc rest

unfoldable pub has_address : ℕ → List ℕ → Bool
has_address a [] = false
has_address a (b ∷ bs) = b == a || has_address a bs

-- IsSameOrDerivedFrom, of OTypeObject for an object and of OCompoundType for a struct; `root` is
-- the type at the root of all objects.
unfoldable pub is_same_or_derived_from : ℕ → ℕ → Bool → List ℕ → ℕ → Bool
unfolding has_address
is_same_or_derived_from root self is_object bases base =
    is_object && base == root || has_address base (self ∷ bases)

-- The types behind the aliases.
unfoldable pub binds : ℕ → Resolved → Resolved → Bool
unfolding is_same_or_derived_from
binds root (pointer d true) (pointer s opaque) = true
binds root (pointer d true) _ = false
binds root (compound d _ _) (compound s is_object bases) =
    is_same_or_derived_from root s is_object bases d
binds root dst src = address dst == address src

abbrev pub has_autofree : ParamType → Bool
has_autofree t = elim (as_autofree t) [ none ↦ false | some b ↦ true ]

abbrev pub same_bool : Bool → Bool → Bool
same_bool true b = b
same_bool false b = not b

-- SameRefBindingType on a source whose autofree was looked through.
unfoldable pub same_ref_types : ℕ → ParamType → ParamType → Bool
unfolding as_autofree resolve_alias binds
same_ref_types root dst src =
    same_bool (has_autofree dst) (has_autofree src)
    && binds root (resolve_alias dst) (resolve_alias src)

abbrev pub without_autofree : ParamType → ParamType
without_autofree t = elim (as_autofree t) [ none ↦ t | some b ↦ b ]

unfoldable pub same_ref_binding_type : ℕ → ParamType → ParamType → Bool → Bool
unfolding as_autofree same_ref_types
same_ref_binding_type root dst src ignore_source_autofree =
    same_ref_types root dst (if ignore_source_autofree then without_autofree src else src)

-- The types of two parameters behind their aliases, and where they are compared the modes.
unfoldable pub same_params : Bool → List Param → List Param → Bool
unfolding resolve_alias same_mode
same_params check_modes [] [] = true
same_params check_modes (p ∷ ps) (q ∷ qs) =
    (not check_modes || same_mode p.mode q.mode)
    && address (resolve_alias p.ptype) == address (resolve_alias q.ptype)
    && same_params check_modes ps qs
same_params check_modes _ _ = false

unfoldable pub same_return : Option ParamType → Option ParamType → Bool
unfolding resolve_alias
same_return none none = true
same_return (some t) (some u) = address (resolve_alias t) == address (resolve_alias u)
same_return _ _ = false

unfoldable pub matches_signature : Bool → Signature → Signature → Bool
unfolding same_params same_return
matches_signature check_modes f g =
    same_bool f.has_varargs g.has_varargs
    && same_return f.rettype g.rettype
    && same_params check_modes f.params g.params
