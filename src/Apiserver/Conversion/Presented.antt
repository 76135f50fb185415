-- ===== src/Apiserver/Conversion/Presented.antt =====
-- Which objects pkg/apiserver/conversion.go presents as another version of themselves.
use spillway.Prelude.{
  ℕ, eqb_iff, ◌≡◌, ◌∙◌, ◌⊎◌, refl, sym, ap, Bool, true, false, ◌||◌, not, Option, none, some, List,
  [], ◌∷◌, if◌then◌else◌, ok, ◌==◌, ==_iff, Any, Bool-cases, inl, inr, arith,
}
use spillway.Prelude.Text.{text_key}
use spillway.Prelude.Maps.{Map, lookup, insert, lookup-insert}
use spillway.Kcp.Api.{GroupKind, group_kind_key}
use spillway.Apiserver.Gate.{GroupVersionKind}
use spillway.Apiserver.Conversion.{
  Definition, relabelable, ConversionPolicy, fill, or_false, is_stale, relabels, gvk_eq,
  convert_objects, convert,
}

gvk_eq_lem : (a b : GroupVersionKind) → gvk_eq a b ≡ true → a ≡ b
gvk_eq_lem a b h =
    let g : (a.group == b.group) ≡ true = ground (arith, h) in
    let v : (a.version == b.version) ≡ true = ground (arith, h) in
    let k : (a.kind == b.kind) ≡ true = ground (arith, h) in
    cc ((==_iff a.group b.group).0 g, (==_iff a.version b.version).0 v, (==_iff a.kind b.kind).0 k)

-- The definition is for the kind, and declares its versions interchangeable.
abbrev pub IsInterchangeable : GroupKind → Definition → Type 0
IsInterchangeable kind crd =
    (record { group = crd.group; kind = crd.kind } ≡ kind) × (relabelable crd ≡ true)

pub lookup-fill :
    (definitions : List Definition) (cached : Map GroupKind Bool) (kind : GroupKind)
    → or_false (lookup kind (fill definitions cached)) ≡ true
    → Any (IsInterchangeable kind) definitions ⊎ (or_false (lookup kind cached) ≡ true)
unfolding fill
lookup-fill [] cached kind h = inr h
lookup-fill (crd ∷ rest) cached kind h =
    let key : GroupKind = record { group = crd.group; kind = crd.kind } in
    elim (lookup-fill rest (insert key (relabelable crd) cached) kind h) [
      | inl later ↦ inl (inr later)
      | inr here ↦
          let e : or_false (if key == kind then some (relabelable crd) else lookup kind cached)
              ≡ true =
            ap or_false (sym (lookup-insert key (relabelable crd) cached kind)) ∙ here in
          elim (Bool-cases (key == kind)) [
            | inl same ↦ inl (inl ((==_iff key kind).0 same, rw same at e))
            | inr other ↦ inr (rw other at e)
          ]
    ]

-- A kind is relabelled after the workspace has been asked only if it answered, and one of the
-- definitions that it answered is for the kind and declares its versions interchangeable.
pub relabels-IsInterchangeable :
    (generation : ℕ) (answer : Option (List Definition)) (kind : GroupKind) (p : ConversionPolicy)
    → is_stale p generation ≡ true
    → (relabels generation answer kind p).1 ≡ true
    → (definitions : List Definition) × (answer ≡ some definitions)
      × Any (IsInterchangeable kind) definitions
unfolding relabels lookup
relabels-IsInterchangeable generation none kind p stale h = absurd (cc (rw (stale, relabels) at h))
relabels-IsInterchangeable generation (some definitions) kind p stale h =
    elim (lookup-fill definitions [] kind (rw (stale, relabels) at h)) [
      | inl there ↦ (definitions, refl, there)
      | inr nowhere ↦ absurd (cc (nowhere))
    ]

-- For one generation the workspace is asked until it answers, and not again: a failure leaves the
-- policy as it was, and after an answer every question of that generation is answered from it,
-- whatever the workspace would say.
pub relabels_once :
    (generation : ℕ) (definitions : List Definition) (kind other : GroupKind)
    (later : Option (List Definition)) (p : ConversionPolicy)
    → is_stale p generation ≡ true
    → (relabels generation none kind p ≡ (p, false))
      × (relabels generation later other (relabels generation (some definitions) kind p).0 ≡ (
        (relabels generation (some definitions) kind p).0,
        or_false (lookup other (fill definitions [])),
      ))
unfolding relabels
relabels_once generation definitions kind other later p stale =
    (rw (stale, relabels) refl, rw (stale, relabels, (eqb_iff generation generation).1 refl) refl)

module _ {Object : Type 0} (kind_of : Object → GroupVersionKind)
    (set_kind : GroupVersionKind → Object → Object)
    (kind_of-set_kind : (kind : GroupVersionKind) (o : Object)
      → kind_of (set_kind kind o) ≡ kind) where
  -- The object itself, or with another version written into it that the policy lets stand for it.
  abbrev pub IsPresented : (GroupKind → Bool) → (source out : Object) → Type 0
  IsPresented relabelled source out =
      (out ≡ source)
      ⊎ ((out ≡ set_kind (kind_of out) source)
          × ((kind_of source).group ≡ (kind_of out).group)
          × ((kind_of source).kind ≡ (kind_of out).kind)
          × (relabelled (record { group = (kind_of source).group; kind = (kind_of source).kind })
              ≡ true))

  convert_objects-IsPresented :
      (relabelled : GroupKind → Bool) (source target out : Object)
      → convert_objects kind_of set_kind relabelled source target ≡ ok out
      → (kind_of out ≡ kind_of target) × IsPresented relabelled source out
  unfolding convert_objects
  convert_objects-IsPresented relabelled source target out h =
      let old = kind_of source in
      let new = kind_of target in
      elim (Bool-cases (gvk_eq old new)) [
        | inl same ↦
            let e : source ≡ out = cc (rw (same, convert_objects) at h) in
            (rw (← e) (gvk_eq_lem old new same), inl (sym e))
        | inr versions ↦
            elim (Bool-cases (not (old.group == new.group) || not (old.kind == new.kind))) [
              | inl other ↦ absurd (cc (rw (versions, convert_objects, other) at h))
              | inr alike ↦
                  elim (Bool-cases (relabelled (record { group = old.group; kind = old.kind }))) [
                    | inr refused ↦
                        absurd (cc (rw (versions, convert_objects, alike, refused) at h))
                    | inl allowed ↦
                        let e : set_kind new source ≡ out =
                          cc (rw (versions, convert_objects, alike, allowed) at h) in
                        let k : kind_of out ≡ new =
                          ap kind_of (sym e) ∙ kind_of-set_kind new source in
                        let g : old.group ≡ new.group =
                          (==_iff old.group new.group).0 (ground (arith, alike)) in
                        let n : old.kind ≡ new.kind =
                          (==_iff old.kind new.kind).0 (ground (arith, alike)) in
                        (k, inr (rw k (sym e), rw k g, rw k n, allowed))
                  ]
            ]
      ]

  -- What Convert makes of a source and a target, both unstructured, has the kind and the version of
  -- the target, and is the source itself or the source with that version written into it; the
  -- latter only within one group and kind, which the policy says may be relabelled.
  pub convert-IsPresented :
      (relabelled : GroupKind → Bool) (source target : Option Object) (out : Object)
      → convert kind_of set_kind relabelled source target ≡ ok out
      → (s : Object) × (t : Object) × (source ≡ some s)
        × (target ≡ some t)
        × (kind_of out ≡ kind_of t)
        × IsPresented relabelled s out
  unfolding convert
  convert-IsPresented relabelled none target out h = absurd (cc (h))
  convert-IsPresented relabelled (some source) none out h = absurd (cc (h))
  convert-IsPresented relabelled (some source) (some target) out h =
      let (kind, presented) = convert_objects-IsPresented relabelled source target out h in
      (source, target, refl, refl, kind, presented)
