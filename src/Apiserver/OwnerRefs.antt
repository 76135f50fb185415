-- ===== src/Apiserver/OwnerRefs.antt =====
-- The check of owner references of pkg/apiserver/ownerrefs.go. The decoder of JSON, what an object
-- says of its owners, and schema.ParseGroupVersion are arguments.
pub mod Writes
mod Tests
use spillway.Prelude.{
  ℕ, zero, suc, ◌+◌, Bool, true, false, ◌&&◌, ◌||◌, not, Option, none, some, List, [], ◌∷◌, length,
  ltb, if◌then◌else◌, Comparable, ◌==◌,
}
use spillway.Prelude.Text.{Text, bytes, text_key, has_prefix, has_suffix}
use spillway.Prelude.Sets.{Sets}
use spillway.Kcp.Api.{GroupVersion}
use spillway.Apiserver.Request.{Body, nil, no_body, unreadable, content}

-- The parts of metav1.OwnerReference that are read.
pub record OwnerReference : Type 0 where
  pub api_version : Text
  pub kind : Text
  pub name : Text

pub data InspectError : Type 0 where
  reading too_large : InspectError

pub data OwnerError : Type 0 where
  unparseable : OwnerReference → OwnerError
  cross_boundary : OwnerReference → (group : Text) → OwnerError

-- The object, the body to forward, and the error.
pub record Inspected (Object : Type 0) : Type 0 where
  pub object : Option Object
  pub body : Option Text
  pub error : Option InspectError

abbrev pub take : ℕ → Text → Text
take zero s = []
take (suc n) [] = []
take (suc n) (b ∷ s) = b ∷ take n s

-- bytes.Contains(body, field)
unfoldable pub contains_text : Text → Text → Bool
contains_text [] field = has_prefix [] field
contains_text (b ∷ s) field = has_prefix (b ∷ s) field || contains_text s field

abbrev pub owner_references_field : Text
owner_references_field = bytes "ownerReferences"

-- decodesObject(method)
abbrev pub decodes_object : Text → Bool
decodes_object method = method == bytes "POST" || method == bytes "PUT"

-- The test on the header Content-Type, which is empty if it is missing.
abbrev pub is_inspected : Text → Bool
is_inspected content_type =
    content_type == []
    || has_prefix content_type (bytes "application/json")
    || has_suffix content_type (bytes "+json")
    || has_suffix content_type (bytes "+yaml")

module _ {Object : Type 0} (decode : Text → Option Object) (max_write_bytes : ℕ) where
  abbrev pub nothing : Inspected Object
  nothing = record { object = none; body = none; error = none }

  -- The end of `inspectWrite`, with the bytes that were read.
  unfoldable pub inspect_body : (method body : Text) → Inspected Object
  inspect_body method body =
      if ltb max_write_bytes (length body)
      then record { object = none; body = some body; error = some too_large }
      else if not (decodes_object method) && not (contains_text body owner_references_field)
      then record { object = none; body = some body; error = none }
      else record { object = decode body; body = some body; error = none }

  -- inspectWrite(req)
  unfoldable pub inspect_write : (method content_type : Text) → Body → Inspected Object
  inspect_write method content_type nil = nothing
  inspect_write method content_type no_body = nothing
  inspect_write method content_type unreadable =
      if is_inspected content_type
      then record { object = none; body = none; error = some reading }
      else nothing
  inspect_write method content_type (content body) =
      if is_inspected content_type
      then inspect_body method (take (max_write_bytes + 1) body)
      else nothing

module _ ⦃S : Sets Text⦄ (parse_group_version : Text → Option GroupVersion) (served : S.Set) where
  abbrev pub check_one : OwnerReference → Option OwnerError
  check_one owner = elim (parse_group_version owner.api_version) [
    | none ↦ some (unparseable owner)
    | some gv ↦ if S.has served gv.group then none else some (cross_boundary owner gv.group)
  ]

  -- checkOwnerReferences(object, served), over the owner references of the object
  unfoldable pub check_owner_references : Option (List OwnerReference) → Option OwnerError
  check_owner_references none = none
  check_owner_references (some []) = none
  check_owner_references (some (owner ∷ rest)) =
      let later = check_owner_references (some rest) in
      elim (check_one owner) [ some e ↦ some e | none ↦ later ]
