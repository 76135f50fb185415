-- ===== src/Apiserver/Gate/Admitted.antt =====
-- What has happened when `run` of pkg/apiserver/admission.go lets a write through.
use spillway.Prelude.{
  ◌≡◌, ◌⊎◌, inl, inr, refl, true, false, ◌&&◌, not, Option, none, some, if◌then◌else◌, Result, ok,
  err, Bool-cases, Option-cases, arith,
}
use spillway.Prelude.Text.{Text, text_key}
use spillway.Apiserver.Request.{Request, RequestInfo, User}
use spillway.Apiserver.AdmissionMatch.{Operation, matches_write}
use spillway.Apiserver.Gate.{
  GroupVersionKind, Unstructured, Attributes, Edited, Chain, AdmissionGate, GateError, resource_for,
  operation_for, is_delete, kind_for, subject_name, attributes_for,
}
use spillway.Apiserver.Gate.Run.{
  mutate, validate_edited, refuse_object, admitted, to_forward, run_kind, run_operation, run,
}

-- What `run` answers of it: nothing to change without a subject, else the object as it is now.
abbrev pub IsForwarded :
    {Object : Type 0} → (subject : Option Object) → Edited Object → Option Object → Type 0
IsForwarded none edited out = out ≡ none
IsForwarded (some _) edited out = (edited.is_unstructured ≡ true) × (out ≡ edited.object)

module _ {World Object : Type 0} where
  -- The mutating half left `edited`, which the validating half, if there is one, does not refuse.
  abbrev pub IsAdmitted : Chain World Object → Attributes Object → World → Edited Object → Type 0
  IsAdmitted chain a w edited =
      (w1 : World) × (mutate chain a w ≡ (w1, ok edited))
      × ((chain.validates a.operation ≡ false)
          ⊎ ((chain.validate (record a { object = edited.object }) w1).1 ≡ none))

  refuse_object_inv :
      (edited out : Edited Object) (answer : World × Option Text) (w : World)
      → refuse_object edited answer ≡ (w, ok out)
      → (out ≡ edited) × (answer.1 ≡ none)
  refuse_object_inv edited out (w1, none) w h = (cc, refl)
  refuse_object_inv edited out (w1, some reason) w h = absurd (cc h)

  pub validate_edited-IsAdmitted :
      (chain : Chain World Object) (a : Attributes Object)
      (m : World × Result GateError (Edited Object)) (edited : Edited Object) (w : World)
      → validate_edited chain a m ≡ (w, ok edited)
      → (w1 : World) × (m ≡ (w1, ok edited))
        × ((chain.validates a.operation ≡ false)
            ⊎ ((chain.validate (record a { object = edited.object }) w1).1 ≡ none))
  unfolding validate_edited
  validate_edited-IsAdmitted chain a (w1, err reason) edited w h = absurd (cc h)
  validate_edited-IsAdmitted chain a (w1, ok left) edited w h =
      elim (Bool-cases (chain.validates a.operation)) [
        | inr skipped ↦ (w1, cc (rw skipped at h), inl skipped)
        | inl validates ↦
            let asked : refuse_object left (chain.validate (record a { object = left.object }) w1)
                ≡ (w, ok edited) =
              rw validates at h in
            let (same, passed) = refuse_object_inv left edited _ w asked in
            (w1, rw same refl, inr (rw same passed))
      ]

  to_forward-IsForwarded :
      (subject : Option Object) (r : World × Result GateError (Edited Object)) (w : World)
      (out : Option Object)
      → to_forward subject r ≡ (w, ok out)
      → (edited : Edited Object) × (r ≡ (w, ok edited)) × IsForwarded subject edited out
  unfolding to_forward
  to_forward-IsForwarded subject (w1, err reason) w out h = absurd (cc h)
  to_forward-IsForwarded none (w1, ok edited) w out h = (edited, cc, cc)
  to_forward-IsForwarded (some _) (w1, ok edited) w out h =
      elim (Bool-cases edited.is_unstructured) [
        | inl same ↦
            let e : ◌≡◌ {A = World × Result GateError (Option Object)} (w1, ok edited.object)
                (w, ok out) =
              rw same at h in
            (edited, cc, (same, cc))
        | inr other ↦ absurd (cc (rw other at h))
      ]

-- The object that `run` shows to the chain: none for a delete.
abbrev pub subject_of : {Object : Type 0} → Operation → Option Object → Option Object
subject_of operation object = if is_delete operation then none else object

module _ {World Object : Type 0} (u : Unstructured Object) where
  -- The write has a caller and a kind, and the chain has admitted it under these and left what is
  -- forwarded.
  abbrev pub HasVerdict :
      Chain World Object
      → Request
      → RequestInfo
      → Operation
      → Option Object
      → Option Object
      → Type 0
  HasVerdict chain req info operation subject out =
      (caller : User) × (old : Option Object) × (kind : GroupVersionKind) × (w : World)
      × (edited : Edited Object) × (req.user ≡ some caller)
      × (kind_for u subject old ≡ some kind)
      × IsAdmitted chain
          (attributes_for req info caller operation kind (subject_name u info subject) subject old)
          w edited
      × IsForwarded subject edited out

  HasVerdict-run_kind :
      (chain : Chain World Object) (req : Request) (info : RequestInfo) (caller : User)
      (operation : Operation) (subject : Option Object) (start : World × Option Object) (w : World)
      (out : Option Object)
      → req.user ≡ some caller
      → run_kind u chain req info caller operation subject start ≡ (w, ok out)
      → HasVerdict chain req info operation subject out
  unfolding run_kind
  HasVerdict-run_kind chain req info caller operation subject (w0, old) w out user h =
      elim (Option-cases (kind_for u subject old)) [
        | inl missing ↦ absurd (cc (rw (missing, run_kind) at h))
        | inr (kind, known) ↦
            let a =
              attributes_for req info caller operation kind (subject_name u info subject) subject
                old in
            let e : to_forward subject (admitted chain a w0) ≡ (w, ok out) =
              rw (known, run_kind) at h in
            let (edited, passed, forwarded) =
              to_forward-IsForwarded subject (admitted chain a w0) w out e in
            (
              caller,
              old,
              kind,
              w0,
              edited,
              user,
              known,
              validate_edited-IsAdmitted chain a (mutate chain a w0) edited w passed,
              forwarded,
            )
      ]

  -- A write that passes admission in a gate with a chain, on a resource and with a verb that is
  -- admitted, is either a delete that nothing the matcher knows would see, or it has a caller and a
  -- kind and the chain has admitted it: its mutating half left an object that its validating half,
  -- if there is one, does not refuse, and that object is what is forwarded.
  pub run-HasVerdict :
      (g : AdmissionGate World Object) (chain : Chain World Object) (req : Request)
      (info : RequestInfo) (operation : Operation) (object : Option Object) (w w1 : World)
      (out : Option Object)
      → g.admit ≡ some chain
      → req.info ≡ some info
      → info.is_resource_request ≡ true
      → operation_for info.verb ≡ some operation
      → run u (some g) req object w ≡ (w1, ok out)
      → ((is_delete operation ≡ true)
          × (matches_write g.matcher (resource_for info) operation ≡ false)
          × (out ≡ none))
        ⊎ HasVerdict chain req info operation (subject_of operation object) out
  unfolding run run_operation
  run-HasVerdict g chain req info operation object w w1 out admits known resource handled h =
      elim (Option-cases req.user) [
        | inl nobody ↦ absurd (cc (rw (admits, known, resource, handled, nobody, run) at h))
        | inr (caller, user) ↦
            let e : run_operation u g chain req info caller operation object w ≡ (w1, ok out) =
              rw (admits, known, resource, handled, user, run) at h in
            elim (Bool-cases (
              is_delete operation && not (matches_write g.matcher (resource_for info) operation))) [
                | inl skips ↦ inl (
                  ground (arith, skips),
                  ground (arith, skips),
                  cc (rw (skips, run_operation) at e),
                )
                | inr asks ↦ inr (
                    HasVerdict-run_kind chain req info caller operation _ _ w1 out user
                      (rw (asks, run_operation) at e))
              ]
      ]
