-- ===== src/Apiserver/Gate/Run.antt =====
-- `run` of pkg/apiserver/admission.go, and the two calls of the chain.
use spillway.Prelude.{◌&&◌, not, Option, none, some, if◌then◌else◌, Result, ok, err, is_some}
use spillway.Prelude.Text.{Text, text_key}
use spillway.Apiserver.Request.{Request, RequestInfo, User}
use spillway.Apiserver.AdmissionMatch.{Operation, matches_write}
use spillway.Apiserver.Gate.{
  Unstructured, Attributes, Edited, Chain, AdmissionGate, GateError, resource_for, operation_for,
  is_delete, attributes_for, kind_for, subject_name, old_object, no_user, no_kind, not_unstructured,
  rejected,
}

module _ {World Object : Type 0} where
  abbrev pub refuse_edit :
      World × Result Text (Edited Object) → World × Result GateError (Edited Object)
  refuse_edit (w, ok edited) = (w, ok edited)
  refuse_edit (w, err reason) = (w, err (rejected reason))

  -- The call of the mutating half of the chain, where it is one.
  unfoldable pub mutate :
      Chain World Object → Attributes Object → World → World × Result GateError (Edited Object)
  mutate chain a w =
      if chain.mutates a.operation
      then refuse_edit (chain.admit a w)
      else (w, ok (record { object = a.object; is_unstructured = is_some a.object }))

  abbrev pub refuse_object :
      Edited Object → World × Option Text → World × Result GateError (Edited Object)
  refuse_object edited (w, none) = (w, ok edited)
  refuse_object edited (w, some reason) = (w, err (rejected reason))

  -- The call of the validating half, on the object as it was edited.
  unfoldable pub validate_edited :
      Chain World Object
      → Attributes Object
      → World × Result GateError (Edited Object)
      → World × Result GateError (Edited Object)
  validate_edited chain a (w, err reason) = (w, err reason)
  validate_edited chain a (w, ok edited) =
      if chain.validates a.operation
      then refuse_object edited (chain.validate (record a { object = edited.object }) w)
      else (w, ok edited)

  -- Both calls, as `run` and `runPatch` make them.
  abbrev pub admitted :
      Chain World Object → Attributes Object → World → World × Result GateError (Edited Object)
  admitted chain a w = validate_edited chain a (mutate chain a w)

  -- The end of `run`: the object to forward.
  unfoldable pub to_forward :
      (subject : Option Object)
      → World × Result GateError (Edited Object)
      → World × Result GateError (Option Object)
  to_forward subject (w, err reason) = (w, err reason)
  to_forward none (w, ok edited) = (w, ok none)
  to_forward (some _) (w, ok edited) =
      if edited.is_unstructured then (w, ok edited.object) else (w, err not_unstructured)

module _ {World Object : Type 0} (u : Unstructured Object) where
  -- `run` from the kind on.
  unfoldable pub run_kind :
      Chain World Object
      → Request
      → RequestInfo
      → User
      → Operation
      → (subject : Option Object) → World × Option Object
      → World × Result GateError (Option Object)
  run_kind chain req info caller operation subject (w, old) = elim (kind_for u subject old) [
    | none ↦ (w, err no_kind)
    | some kind ↦ to_forward subject (
        admitted chain
          (attributes_for req info caller operation kind (subject_name u info subject) subject old)
          w)
  ]

  -- `run` from the matcher on.
  unfoldable pub run_operation :
      AdmissionGate World Object
      → Chain World Object
      → Request
      → RequestInfo
      → User
      → Operation
      → Option Object
      → World
      → World × Result GateError (Option Object)
  run_operation g chain req info caller operation object w =
      let watched = matches_write g.matcher (resource_for info) operation in
      if is_delete operation && not watched
      then (w, ok none)
      else run_kind chain req info caller operation (if is_delete operation then none else object)
          (if watched then old_object u g req operation w else (w, none))

  -- g.run(req, object), with none for a nil gate
  unfoldable pub run :
      Option (AdmissionGate World Object)
      → Request
      → Option Object
      → World
      → World × Result GateError (Option Object)
  run none req object w = (w, ok none)
  run (some g) req object w = elim g.admit [
    | none ↦ (w, ok none)
    | some chain ↦ elim req.info [
      | none ↦ (w, ok none)
      | some info ↦
          if not info.is_resource_request then (w, ok none) else elim (operation_for info.verb) [
            | none ↦ (w, ok none)
            | some operation ↦ elim req.user [
              | none ↦ (w, err no_user)
              | some caller ↦ run_operation g chain req info caller operation object w
            ]
          ]
    ]
  ]
