-- ===== src/Apiserver/Conversion.antt =====
-- `conversionPolicy` and `versionConvertor` of pkg/apiserver/conversion.go. The list of definitions
-- that the workspace answers, its decoder, and the operations on unstructured objects are arguments.
pub mod Presented
pub mod Answered
mod Tests
use spillway.Prelude.{
  ℕ, eqb, Bool, true, false, ◌&&◌, ◌||◌, not, Option, none, some, List, [], ◌∷◌, if◌then◌else◌,
  Result, ok, err, Comparable, ◌==◌,
}
use spillway.Prelude.Text.{Text, bytes, text_key}
use spillway.Prelude.Maps.{Map, lookup, insert}
use spillway.Kcp.Api.{GroupKind, group_kind_key}
use spillway.Apiserver.Gate.{GroupVersionKind}

-- The parts of a CustomResourceDefinition that are read: its conversion is its strategy.
pub record Definition : Type 0 where
  pub group : Text
  pub kind : Text
  pub conversion : Option Text

-- relabelable(crd)
abbrev pub relabelable : Definition → Bool
relabelable crd = elim crd.conversion [ none ↦ true | some strategy ↦ strategy == bytes "None" ]

-- conversionPolicy, without the functions that it calls
pub record ConversionPolicy : Type 0 where
  pub cached : Map GroupKind Bool
  pub cached_from : ℕ
  pub loaded : Bool

-- The loop that fills the cache; a later definition of a kind replaces an earlier one.
unfoldable pub fill : List Definition → Map GroupKind Bool → Map GroupKind Bool
fill [] cached = cached
fill (crd ∷ rest) cached =
    fill rest (insert (record { group = crd.group; kind = crd.kind }) (relabelable crd) cached)

abbrev pub or_false : Option Bool → Bool
or_false none = false
or_false (some b) = b

-- Whether the policy asks the workspace again.
abbrev pub is_stale : ConversionPolicy → (generation : ℕ) → Bool
is_stale p generation = not p.loaded || not (eqb p.cached_from generation)

abbrev pub load_definitions :
    (generation : ℕ)
    → GroupKind
    → ConversionPolicy
    → Option (List Definition)
    → ConversionPolicy × Bool
load_definitions generation kind p none = (p, false)
load_definitions generation kind p (some definitions) =
    let cached = fill definitions [] in
    (
      record { cached = cached; cached_from = generation; loaded = true },
      or_false (lookup kind cached),
    )

-- p.relabels(kind), at a generation, with the definitions that the workspace answers if it is asked,
-- or none where it does not or they do not decode
unfoldable pub relabels :
    (generation : ℕ) (answer : Option (List Definition))
    → GroupKind
    → ConversionPolicy
    → ConversionPolicy × Bool
relabels generation answer kind p =
    if is_stale p generation
    then load_definitions generation kind p answer
    else (p, or_false (lookup kind p.cached))

-- The same of a policy that may be nil, or have no way to list the definitions.
abbrev pub relabels_if :
    (generation : ℕ) (answer : Option (List Definition))
    → GroupKind
    → Option ConversionPolicy
    → Bool
relabels_if generation answer kind none = false
relabels_if generation answer kind (some p) = (relabels generation answer kind p).1

pub data ConvertError : Type 0 where
  not_unstructured_source not_unstructured_target : ConvertError
  other_kind not_interchangeable : (source target : GroupVersionKind) → ConvertError

abbrev pub gvk_eq : GroupVersionKind → GroupVersionKind → Bool
gvk_eq a b = a.group == b.group && a.version == b.version && a.kind == b.kind

module _ {Object : Type 0} (kind_of : Object → GroupVersionKind)
    (set_kind : GroupVersionKind → Object → Object) where
  -- The end of `Convert`, on two unstructured objects.
  unfoldable pub convert_objects :
      (relabelled : GroupKind → Bool) → (source target : Object) → Result ConvertError Object
  convert_objects relabelled source target =
      let old = kind_of source in
      let new = kind_of target in
      if gvk_eq old new
      then ok source
      else if not (old.group == new.group) || not (old.kind == new.kind)
      then err (other_kind old new)
      else if not (relabelled (record { group = old.group; kind = old.kind }))
      then err (not_interchangeable old new)
      else ok (set_kind new source)

  -- c.Convert(in, out, _), with none for what is not unstructured and what the policy answers; the
  -- contents of the target afterwards
  unfoldable pub convert :
      (relabelled : GroupKind → Bool) → (source target : Option Object) → Result ConvertError Object
  convert relabelled none target = err not_unstructured_source
  convert relabelled (some source) none = err not_unstructured_target
  convert relabelled (some source) (some target) = convert_objects relabelled source target
