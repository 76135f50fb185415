-- ===== src/Apiserver/Gate.antt =====
-- `admissionGate` of pkg/apiserver/admission.go: admission of a write, and of a patch by way of a
-- dry run. The admission chain of the API server library, the workspace, and what the library does
-- with unstructured objects are interfaces.
pub mod Run
pub mod Patches
pub mod Admitted
pub mod Decided
pub mod Samples
mod Tests
use spillway.Prelude.{
  Bool, true, false, ◌&&◌, ◌||◌, not, Option, none, some, List, [], ◌∷◌, any, if◌then◌else◌,
  Comparable, ◌==◌, Result, ok, err, is_some,
}
use spillway.Prelude.Text.{Text, bytes, text_key}
use spillway.Apiserver.Request.{Request, RequestInfo, User}
use spillway.Apiserver.Backend.{Backend, BackendError, Values}
use spillway.Apiserver.AdmissionMatch.{
  Operation, create, update, delete, connect, GroupVersionResource, AdmissionMatcher, matches_write,
}

pub record GroupVersionKind : Type 0 where
  pub group : Text
  pub version : Text
  pub kind : Text

-- The operations of unstructured.Unstructured, json and equality.Semantic that are called.
pub record Unstructured (Object : Type 0) : Type 0 where
  pub decode : Text → Option Object
  pub encode : Object → Option Text
  pub kind_of : Object → GroupVersionKind
  pub name_of : Object → Text
  pub resource_version : Object → Text
  pub set_resource_version : Text → Object → Object
  pub deep_equal : Object → Object → Bool

-- admission.Attributes
pub record Attributes (Object : Type 0) : Type 0 where
  pub object : Option Object
  pub old_object : Option Object
  pub kind : GroupVersionKind
  pub namespace : Text
  pub name : Text
  pub resource : GroupVersionResource
  pub subresource : Text
  pub operation : Operation
  pub dry_run : Bool
  pub caller : User

-- The object under admission as it was edited in place, and whether the attributes still hold an
-- unstructured one.
pub record Edited (Object : Type 0) : Type 0 where
  pub object : Option Object
  pub is_unstructured : Bool

-- admission.Interface: whether it mutates and handles an operation, whether it validates and
-- handles it, and the two calls.
pub record Chain (World Object : Type 0) : Type 0 where
  pub mutates : Operation → Bool
  pub admit : Attributes Object → World → World × Result Text (Edited Object)
  pub validates : Operation → Bool
  pub validate : Attributes Object → World → World × Option Text

pub record AdmissionGate (World Object : Type 0) : Type 0 where
  pub admit : Option (Chain World Object)
  pub backend : Option (Backend World)
  pub matcher : Option AdmissionMatcher

pub data GateError : Type 0 where
  no_user no_kind not_unstructured re_encoding : GateError
  rejected : Text → GateError

-- resourceFor(info)
abbrev pub resource_for : RequestInfo → GroupVersionResource
resource_for info = record {
  group = info.api_group;
  version = info.api_version;
  resource = info.resource;
}

-- operationFor(verb)
abbrev pub operation_for : Text → Option Operation
operation_for verb =
    if verb == bytes "create"
    then some create
    else if verb == bytes "update"
    then some update
    else if verb == bytes "delete"
    then some delete
    else none

-- The comparisons of an operation with admission.Create and with admission.Delete.
abbrev pub is_create : Operation → Bool
is_create create = true
is_create update = false
is_create delete = false
is_create connect = false

abbrev pub is_delete : Operation → Bool
is_delete create = false
is_delete update = false
is_delete delete = true
is_delete connect = false

-- isDryRun(req)
unfoldable pub is_dry_run : Values → Bool
is_dry_run query = any (λ (key, value). key == bytes "dryRun" && value == bytes "All") query

module _ {Object : Type 0} (u : Unstructured Object) where
  -- The first candidate that names a kind.
  unfoldable pub first_kind : List (Option Object) → Option GroupVersionKind
  first_kind [] = none
  first_kind (none ∷ rest) = first_kind rest
  first_kind (some candidate ∷ rest) =
      let later = first_kind rest in
      let kind = u.kind_of candidate in if kind.kind == [] then later else some kind

  -- kindFor(subject, old, info), with none for its error
  abbrev pub kind_for : (subject old : Option Object) → Option GroupVersionKind
  kind_for subject old = first_kind (subject ∷ old ∷ [])

  abbrev pub subject_name : RequestInfo → Option Object → Text
  subject_name info none = info.name
  subject_name info (some object) = if info.name == [] then u.name_of object else info.name

-- The attributes that `run` and `runPatch` build.
abbrev pub attributes_for :
    {Object : Type 0}
    → Request
    → RequestInfo
    → User
    → Operation
    → GroupVersionKind
    → (name : Text) → (object old : Option Object) → Attributes Object
attributes_for req info caller operation kind name object old = record {
  object = object;
  old_object = old;
  kind = kind;
  namespace = info.namespace;
  name = name;
  resource = resource_for info;
  subresource = info.subresource;
  operation = operation;
  dry_run = is_dry_run req.query;
  caller = caller;
}

module _ {World Object : Type 0} (u : Unstructured Object) where
  abbrev pub decoded : World × Result BackendError Text → World × Option Object
  decoded (w, ok body) = (w, u.decode body)
  decoded (w, err _) = (w, none)

  -- g.oldObject(req, operation), which answers no error
  unfoldable pub old_object :
      AdmissionGate World Object → Request → Operation → World → World × Option Object
  old_object g req operation w =
      if is_create operation
      then (w, none)
      else elim g.backend [ none ↦ (w, none) | some backend ↦ decoded (backend.fetch req.path w) ]
