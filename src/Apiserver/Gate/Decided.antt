-- ===== src/Apiserver/Gate/Decided.antt =====
-- What has happened when `runPatch` of pkg/apiserver/admission.go answers without an error.
use spillway.Prelude.{
  ◌≡◌, ◌⊎◌, inl, inr, refl, true, false, Option, none, some, Result, ok, err, Bool-cases,
  Option-cases,
}
use spillway.Prelude.Text.{Text}
use spillway.Apiserver.Request.{Request, RequestInfo, User}
use spillway.Apiserver.Backend.{Backend}
use spillway.Apiserver.AdmissionMatch.{update, matches_write}
use spillway.Apiserver.Gate.{
  Unstructured, Edited, Chain, AdmissionGate, GateError, resource_for, old_object,
}
use spillway.Apiserver.Gate.Run.{mutate, admitted}
use spillway.Apiserver.Gate.Admitted.{IsAdmitted, validate_edited-IsAdmitted}
use spillway.Apiserver.Gate.Patches.{
  PatchDecision, is_resource_patch, handles_anything, with_version, decide, edited_object,
  decide_edited, patch_attributes, run_resolved, dry_run, run_patch_old, run_patch,
}

module _ {Object : Type 0} (u : Unstructured Object) where
  -- The patch itself is forwarded where admission left what it produces alone; else the object as
  -- it was edited is, with the resourceVersion of the one the patch was resolved against.
  abbrev pub IsDecision : (old : Option Object) (resolved edited : Object) → PatchDecision → Type 0
  IsDecision old resolved edited decision =
      ((u.deep_equal resolved edited ≡ true) × (decision.replacement ≡ none))
      ⊎ ((u.deep_equal resolved edited ≡ false)
          × (body : Text) × (u.encode (with_version u old edited) ≡ some body)
          × (decision.replacement ≡ some body))

  decide-IsDecision :
      (old : Option Object) (resolved edited : Object) (out : Option PatchDecision)
      → decide u old resolved edited ≡ ok out
      → (decision : PatchDecision) × (out ≡ some decision) × IsDecision old resolved edited decision
  unfolding decide
  decide-IsDecision old resolved edited out h = elim (Bool-cases (u.deep_equal resolved edited)) [
    | inl same ↦
        let e : some (record { replacement = none }) ≡ out = cc (rw (same, decide) at h) in
        (record { replacement = none }, cc (e), inl (same, refl))
    | inr changed ↦ elim (Option-cases (u.encode (with_version u old edited))) [
      | inl fails ↦ absurd (cc (rw (changed, fails, decide) at h))
      | inr (body, encoded) ↦
          let e : some (record { replacement = some body }) ≡ out =
            cc (rw (changed, encoded, decide) at h) in
          (record { replacement = some body }, cc (e), inr (changed, body, encoded, refl))
    ]
  ]

module _ {World Object : Type 0} (u : Unstructured Object) where
  -- The chain has admitted what the patch resolves to, for a caller, and the decision is about that.
  abbrev pub HasDecision :
      Chain World Object
      → Request
      → RequestInfo
      → (old resolved : Option Object) → Option PatchDecision
      → Type 0
  HasDecision chain req info old resolved out =
      (caller : User) × (object : Object) × (w : World) × (edited : Edited Object)
      × (decision : PatchDecision) × (req.user ≡ some caller)
      × (resolved ≡ some object)
      × IsAdmitted chain (patch_attributes u req info caller old object) w edited
      × (out ≡ some decision)
      × IsDecision u old object (edited_object object edited) decision

  decide_edited-IsDecision :
      (old : Option Object) (resolved : Object) (r : World × Result GateError (Edited Object))
      (w : World) (out : Option PatchDecision)
      → decide_edited u old resolved r ≡ (w, ok out)
      → (edited : Edited Object) × (r ≡ (w, ok edited))
        × (decide u old resolved (edited_object resolved edited) ≡ ok out)
  decide_edited-IsDecision old resolved (w1, err reason) w out h = absurd (cc h)
  decide_edited-IsDecision old resolved (w1, ok edited) w out h = (edited, cc (h), cc (h))

  HasDecision-run_resolved :
      (chain : Chain World Object) (req : Request) (info : RequestInfo) (caller : User)
      (old : Option Object) (r : World × Option Object) (w : World) (out : Option PatchDecision)
      → req.user ≡ some caller
      → run_resolved u chain req info caller old r ≡ (w, ok out)
      → ((out ≡ none) × (r.1 ≡ none)) ⊎ HasDecision chain req info old r.1 out
  unfolding run_resolved
  HasDecision-run_resolved chain req info caller old (w0, none) w out user h = inl (cc (h), refl)
  HasDecision-run_resolved chain req info caller old (w0, some object) w out user h =
      let a = patch_attributes u req info caller old object in
      let (edited, passed, decided) =
        decide_edited-IsDecision old object (admitted chain a w0) w out h in
      let (decision, answer, right) =
        decide-IsDecision u old object (edited_object object edited) out decided in
      inr (
        caller,
        object,
        w0,
        edited,
        decision,
        user,
        refl,
        validate_edited-IsAdmitted chain a (mutate chain a w0) edited w passed,
        answer,
        right,
      )

  -- A patch of a resource that a webhook or a policy would see, in a gate with a workspace and a
  -- chain that handles updates, passes admission in two ways only: the dry run gives no object, and
  -- the patch goes on unadmitted; or the chain has admitted the object that the dry run gives, and
  -- the patch is replaced exactly if the chain changed that object, then by the changed object with
  -- the resourceVersion of the object that was there before, if one was.
  pub run_patch-HasDecision :
      (g : AdmissionGate World Object) (chain : Chain World Object) (backend : Backend World)
      (req : Request) (info : RequestInfo) (patch : Text) (w w1 : World)
      (out : Option PatchDecision)
      → g.admit ≡ some chain
      → g.backend ≡ some backend
      → req.info ≡ some info
      → is_resource_patch info ≡ true
      → matches_write g.matcher (resource_for info) update ≡ true
      → handles_anything chain ≡ true
      → run_patch u (some g) req patch w ≡ (w1, ok out)
      → let before = old_object u g req update w in
        let resolved = dry_run u backend req patch before.0 in
        ((out ≡ none) × (resolved.1 ≡ none)) ⊎ HasDecision chain req info before.1 resolved.1 out
  unfolding run_patch
  run_patch-HasDecision g chain backend req info patch w w1 out admits has known resource watched
        handles h =
      elim (Option-cases req.user) [
        | inl nobody ↦
            absurd
              (cc (rw (admits, has, known, resource, watched, handles, nobody, run_patch) at h))
        | inr (caller, user) ↦
            let e : run_patch_old u backend chain req info caller patch
                  (old_object u g req update w)
                ≡ (w1, ok out) =
              rw (admits, has, known, resource, watched, handles, user, run_patch) at h in
            HasDecision-run_resolved chain req info caller _ _ w1 out user e
      ]
