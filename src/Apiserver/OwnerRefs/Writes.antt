-- ===== src/Apiserver/OwnerRefs/Writes.antt =====
-- What pkg/apiserver/ownerrefs.go reads of a write, and what it refuses.
use spillway.Prelude.{
  ℕ, zero, suc, ◌+◌, ◌<◌, ◌≡◌, ◌∙◌, ◌↔◌, refl, sym, subst, true, false, ◌||◌, Option, none, some,
  List, [], ◌∷◌, length, ltb, arith, ap, if◌then◌else◌, All, Bool-cases, Option-cases, inl, inr,
}
use spillway.Prelude.Text.{Text, text_key}
use spillway.Prelude.Sets.{Sets}
use spillway.Kcp.Api.{GroupVersion}
use spillway.Apiserver.Request.{content}
use spillway.Apiserver.OwnerRefs.{
  OwnerReference, unparseable, cross_boundary, Inspected, take, contains_text,
  owner_references_field, decodes_object, is_inspected, inspect_body, inspect_write, check_one,
  check_owner_references,
}

take-whole : (n : ℕ) (s : Text) → length (take n s) < n → take n s ≡ s
take-whole zero s h = absurd (omega (arith, h))
take-whole (suc n) [] h = refl
take-whole (suc n) (b ∷ s) h = ap (λ t. b ∷ t) (take-whole n s (omega (arith, h)))

module _ {Object : Type 0} (decode : Text → Option Object) (max_write_bytes : ℕ) where
  abbrev Shown : (method body : Text) → Inspected Object → Type 0
  Shown method body i =
      (i.body ≡ some body)
      × (i.object ≡ (
          if decodes_object method || contains_text body owner_references_field
          then decode body
          else none))

  Shown-inspect_body :
      (method body : Text)
      → ltb max_write_bytes (length body) ≡ false
      → Shown method body (inspect_body decode max_write_bytes method body)
  unfolding inspect_body
  Shown-inspect_body method body small =
      elim (Bool-cases (decodes_object method || contains_text body owner_references_field)) [
        | inl decoded ↦ ground (arith, small, decoded)
        | inr skipped ↦ ground (arith, small, skipped)
      ]

  small-inspect_body :
      (method body : Text)
      → (inspect_body decode max_write_bytes method body).error ≡ none
      → ltb max_write_bytes (length body) ≡ false
  unfolding inspect_body
  small-inspect_body method body accepted = elim (Bool-cases (ltb max_write_bytes (length body))) [
    | inl large ↦ cc (rw large at accepted)
    | inr small ↦ small
  ]

  -- A write that is inspected and not refused is forwarded with its whole body, though the body is
  -- read through a limit; its object is what the body decodes to for a create, an update, and any
  -- body that mentions ownerReferences, and no object for other bodies.
  pub whole-inspect_write :
      (method content_type body : Text)
      → is_inspected content_type ≡ true
      → (inspect_write decode max_write_bytes method content_type (content body)).error ≡ none
      → ((inspect_write decode max_write_bytes method content_type (content body)).body ≡ some body)
        × ((inspect_write decode max_write_bytes method content_type (content body)).object ≡ (
            if decodes_object method || contains_text body owner_references_field
            then decode body
            else none))
  unfolding inspect_write
  whole-inspect_write method content_type body json accepted =
      let small =
        small-inspect_body method (take (max_write_bytes + 1) body) (rw json at accepted) in
      let whole = take-whole (max_write_bytes + 1) body (ground (arith, small)) in
      rw json (
        subst (λ b. Shown method body (inspect_body decode max_write_bytes method b)) (sym whole)
          (Shown-inspect_body method body
            (subst (λ b. ltb max_write_bytes (length b) ≡ false) whole small)))

module _ ⦃S : Sets Text⦄ (parse_group_version : Text → Option GroupVersion) (served : S.Set) where
  abbrev pub IsInside : OwnerReference → Type 0
  IsInside owner =
      (gv : GroupVersion) × (parse_group_version owner.api_version ≡ some gv)
      × (S.has served gv.group ≡ true)

  check_one-IsInside :
      (owner : OwnerReference)
      → (check_one parse_group_version served owner ≡ none) ↔ IsInside owner
  check_one-IsInside owner = elim (Option-cases (parse_group_version owner.api_version)) [
    | inl bad ↦
        let e : check_one parse_group_version served owner ≡ some (unparseable owner) =
          rw (bad, check_one) refl in
        (λ h. cc (e, h), λ (gv, parsed, _). cc (bad, parsed))
    | inr (gv, parsed) ↦ elim (Bool-cases (S.has served gv.group)) [
      | inl inside ↦
          let e : check_one parse_group_version served owner ≡ none =
            rw (parsed, check_one, inside) refl in
          (λ _. (gv, parsed, inside), λ _. e)
      | inr outside ↦
          let e : check_one parse_group_version served owner
              ≡ some (cross_boundary owner gv.group) =
            rw (parsed, check_one, outside) refl in
          (λ h. cc (e, h), λ (other, known, inside). cc (known, inside))
    ]
  ]

  -- An object passes exactly when the apiVersion of each of its owners parses and names a group
  -- that is served from the workspace.
  pub check_owner_references-IsInside :
      (owners : List OwnerReference)
      → (check_owner_references parse_group_version served (some owners) ≡ none)
        ↔ All IsInside owners
  unfolding check_owner_references
  check_owner_references-IsInside [] = ground arith
  check_owner_references-IsInside (owner ∷ rest) =
      elim (Option-cases (check_one parse_group_version served owner)) [
        | inl passes ↦
            let e : check_owner_references parse_group_version served (some (owner ∷ rest))
                ≡ check_owner_references parse_group_version served (some rest) =
              rw (passes, check_owner_references) refl in
            let one = check_one-IsInside owner in
            let more = check_owner_references-IsInside rest in
            (λ h. (one.0 passes, more.0 (sym e ∙ h)), λ (_, h). e ∙ more.1 h)
        | inr (reason, refused) ↦
            let e : check_owner_references parse_group_version served (some (owner ∷ rest))
                ≡ some reason =
              rw (refused, check_owner_references) refl in
            (λ h. cc (e, h), λ (h, _). cc (refused, (check_one-IsInside owner).1 h))
      ]
