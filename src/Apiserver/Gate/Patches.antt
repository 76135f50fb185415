-- ===== src/Apiserver/Gate/Patches.antt =====
-- `runPatch` of pkg/apiserver/admission.go: a patch is admitted on what a dry run answers.
use spillway.Prelude.{
  Bool, ◌&&◌, ◌||◌, not, Option, none, some, if◌then◌else◌, ◌==◌, Result, ok, err,
}
use spillway.Prelude.Text.{Text, bytes, text_key}
use spillway.Apiserver.Request.{Request, RequestInfo, User}
use spillway.Apiserver.Backend.{Backend}
use spillway.Apiserver.AdmissionMatch.{Operation, create, update, matches_write}
use spillway.Apiserver.Gate.{
  Unstructured, Attributes, Edited, Chain, AdmissionGate, GateError, no_user, re_encoding,
  resource_for, old_object, attributes_for, decoded,
}
use spillway.Apiserver.Gate.Run.{admitted}

-- patchDecision
pub record PatchDecision : Type 0 where
  pub replacement : Option Text

-- The three parts of the guard on the request's info.
abbrev pub is_resource_patch : RequestInfo → Bool
is_resource_patch info = info.is_resource_request && info.verb == bytes "patch"

-- g.handlesAnything()
abbrev pub handles_anything : {W O : Type 0} → Chain W O → Bool
handles_anything chain = chain.mutates update || chain.validates update

-- A patch that creates the object is a create.
abbrev pub patch_operation : {Object : Type 0} → (old : Option Object) → Operation
patch_operation none = create
patch_operation (some _) = update

-- The object under admission is edited in place, so it is still one.
abbrev pub edited_object : {Object : Type 0} → (resolved : Object) → Edited Object → Object
edited_object resolved edited = elim edited.object [ none ↦ resolved | some object ↦ object ]

module _ {Object : Type 0} (u : Unstructured Object) where
  -- The resourceVersion of the object that the patch was resolved against.
  abbrev pub with_version : (old : Option Object) → Object → Object
  with_version none object = object
  with_version (some old) object = u.set_resource_version (u.resource_version old) object

  -- The end of `runPatch`: what was resolved, and what admission made of it.
  unfoldable pub decide :
      (old : Option Object) (resolved edited : Object) → Result GateError (Option PatchDecision)
  decide old resolved edited =
      if u.deep_equal resolved edited
      then ok (some (record { replacement = none }))
      else elim (u.encode (with_version old edited)) [
        | none ↦ err re_encoding
        | some body ↦ ok (some (record { replacement = some body }))
      ]

  abbrev pub patch_attributes :
      Request → RequestInfo → User → (old : Option Object) (resolved : Object) → Attributes Object
  patch_attributes req info caller old resolved =
      attributes_for req info caller (patch_operation old) (u.kind_of resolved) info.name
        (some resolved) old

module _ {World Object : Type 0} (u : Unstructured Object) where
  abbrev pub decide_edited :
      (old : Option Object) (resolved : Object)
      → World × Result GateError (Edited Object)
      → World × Result GateError (Option PatchDecision)
  decide_edited old resolved (w, err reason) = (w, err reason)
  decide_edited old resolved (w, ok edited) =
      (w, decide u old resolved (edited_object resolved edited))

  -- `runPatch` from the answer of the dry run on.
  unfoldable pub run_resolved :
      Chain World Object
      → Request
      → RequestInfo
      → User
      → (old : Option Object) → World × Option Object
      → World × Result GateError (Option PatchDecision)
  run_resolved chain req info caller old (w, none) = (w, ok none)
  run_resolved chain req info caller old (w, some resolved) =
      decide_edited old resolved
        (admitted chain (patch_attributes u req info caller old resolved) w)

  abbrev pub dry_run : Backend World → Request → (patch : Text) → World → World × Option Object
  dry_run backend req patch w =
      decoded u (backend.patch_dry_run req.path req.query req.content_type patch w)

  abbrev pub run_patch_old :
      Backend World
      → Chain World Object
      → Request
      → RequestInfo
      → User
      → (patch : Text) → World × Option Object
      → World × Result GateError (Option PatchDecision)
  run_patch_old backend chain req info caller patch (w, old) =
      run_resolved chain req info caller old (dry_run backend req patch w)

  -- g.runPatch(req, patch), with none for a nil gate
  unfoldable pub run_patch :
      Option (AdmissionGate World Object)
      → Request
      → (patch : Text) → World
      → World × Result GateError (Option PatchDecision)
  run_patch none req patch w = (w, ok none)
  run_patch (some g) req patch w = elim g.admit [
    | none ↦ (w, ok none)
    | some chain ↦ elim g.backend [
      | none ↦ (w, ok none)
      | some backend ↦ elim req.info [
        | none ↦ (w, ok none)
        | some info ↦
            if not (is_resource_patch info)
              || not (matches_write g.matcher (resource_for info) update)
              || not (handles_anything chain)
            then (w, ok none)
            else elim req.user [
              | none ↦ (w, err no_user)
              | some caller ↦
                  run_patch_old backend chain req info caller patch (old_object u g req update w)
            ]
      ]
    ]
  ]
