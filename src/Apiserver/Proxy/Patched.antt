-- ===== src/Apiserver/Proxy/Patched.antt =====
-- What has happened to a patch when `ServeHTTP` of pkg/apiserver/proxy.go sends it to kcp.
use spillway.Prelude.{
  ℕ, ltb, ◌&&◌, not, if◌then◌else◌, ◌≡◌, ◌⊎◌, refl, true, false, Option, none, some, List,
  Option-cases, inl, inr, ◌==◌, ==_iff, Result, ok, err,
}
use spillway.Prelude.Text.{Text, bytes, text_key, text_eq}
use spillway.Prelude.Sets.{Sets}
use spillway.Kcp.Api.{GroupVersion}
use spillway.Apiserver.Request.{Request, RequestInfo}
use spillway.Apiserver.Backend.{Backend}
use spillway.Apiserver.OwnerRefs.{OwnerReference, Inspected, inspect_write}
use spillway.Apiserver.AdmissionMatch.{update, matches_write}
use spillway.Apiserver.Gate.{
  Unstructured, Chain, AdmissionGate, GateError, resource_for, old_object,
}
use spillway.Apiserver.Gate.Patches.{
  PatchDecision, is_resource_patch, handles_anything, dry_run, run_patch,
}
use spillway.Apiserver.Gate.Decided.{HasDecision, run_patch-HasDecision}
use spillway.Apiserver.Proxy.{
  canonical_path, writes_object, ResourceProxy, Refusal, Forwarded, is_watch,
}
use spillway.Apiserver.Proxy.Serve.{
  or_empty, decided, after_run_patch, admit_patch, write_phase, patch_phase, then_patch,
}
use spillway.Apiserver.Proxy.Sent.{IsSent, IsPatched, decided-IsPatched}
use spillway.Apiserver.Proxy.Mediated.{serve, serve-IsSent}

-- A patch is not a write of an object.
patch_lem : (method : Text) → (method == bytes "PATCH") ≡ true → writes_object method ≡ false
unfolding text_eq
patch_lem method h = rw ((==_iff method (bytes "PATCH")).0 h) refl

module _ {World Object : Type 0} (u : Unstructured Object) (owners : Object → List OwnerReference)
    (parse_group_version : Text → Option GroupVersion) (max_write_bytes : ℕ)
    (backend : Backend World) (encode_namespace : Text → Option Text) ⦃S : Sets Text⦄
    (served : S.Set) (p : ResourceProxy World Object) where
  abbrev look : Request → Inspected Object
  look req = inspect_write u.decode max_write_bytes req.method req.content_type req.body

  abbrev both : Request → World → World × Result Refusal Request
  both req w =
      then_patch u owners parse_group_version max_write_bytes backend encode_namespace served p (
        write_phase u owners parse_group_version max_write_bytes backend encode_namespace served p
          req w)

  after_run_patch_inv :
      (req last : Request) (patch : Option Text)
      (r : World × Result GateError (Option PatchDecision))
      → (after_run_patch u owners parse_group_version max_write_bytes backend encode_namespace
          served p req patch r).1
        ≡ ok last
      → (w1 : World) × (out : Option PatchDecision) × (r ≡ (w1, ok out))
        × (last ≡ decided req patch out)
  after_run_patch_inv req last patch (w, err reason) h = absurd (cc (h))
  after_run_patch_inv req last patch (w, ok out) h = (w, out, refl, cc (h))

  both-run_patch :
      (req last : Request) (w : World)
      → (req.method == bytes "PATCH") ≡ true
      → (both req w).1 ≡ ok last
      → (w1 : World) × (out : Option PatchDecision) × (run_patch u p.admission req
            (or_empty (look req).body)
            w
          ≡ (w1, ok out))
        × (last ≡ decided req (look req).body out)
  unfolding write_phase patch_phase
  both-run_patch req last w patch h =
      let unwritten = patch_lem req.method patch in
      elim (Option-cases (look req).error) [
        | inr (reason, bad) ↦
            absurd (cc (rw (unwritten, write_phase, patch, patch_phase, bad, admit_patch) at h))
        | inl good ↦
            let e = rw (unwritten, write_phase, patch, patch_phase, good, admit_patch) at h in
            after_run_patch_inv req last (look req).body
              (run_patch u p.admission req (or_empty (look req).body) w) e
      ]

  -- A patch that is sent to kcp has a path that passes. In a proxy with a gate that has a workspace
  -- and a chain that handles updates, of a resource that a webhook or a policy would see, it is sent
  -- as it came where its dry run gave no object; else the chain has admitted the object that it
  -- produces. If the chain left that object alone it is sent as it came, with the body that was read;
  -- else as a PUT in JSON whose body is the encoding of the changed object, with the resourceVersion
  -- of the object that was there before, if one was. The request is otherwise sent as it came: to its
  -- path below that of the workspace, with its query, without the caller's credentials, for the
  -- caller if the proxy impersonates, and with the proxy's timeout if it has one and the request is
  -- no watch.
  pub serve_http-HasDecision :
      (g : AdmissionGate World Object) (chain : Chain World Object) (client : Backend World)
      (req : Request) (info : RequestInfo) (asked answered : ℕ) (w : World) (f : Forwarded)
      → p.admission ≡ some g
      → g.admit ≡ some chain
      → g.backend ≡ some client
      → req.info ≡ some info
      → is_resource_patch info ≡ true
      → matches_write g.matcher (resource_for info) update ≡ true
      → handles_anything chain ≡ true
      → (req.method == bytes "PATCH") ≡ true
      → (serve u owners parse_group_version max_write_bytes backend encode_namespace served p req
          asked answered w).answer
        ≡ ok f
      → let before = old_object u g req update w in
        let resolved = dry_run u client req (or_empty (look req).body) before.0 in
        (canonical_path req.path ≡ true)
        × (out : Option PatchDecision) × (((out ≡ none) × (resolved.1 ≡ none))
            ⊎ HasDecision u chain req info before.1 resolved.1 out)
        × (last : Request) × IsPatched req (look req).body out last
        × IsSent p last (if ltb 0 p.timeout && not (is_watch req) then some p.timeout else none) f
  serve_http-HasDecision g chain client req info asked answered w f gate admits has known resource
        watched handles patch h =
      let (canonical, last, passed, sent) =
        serve-IsSent u owners parse_group_version max_write_bytes backend encode_namespace served p
          req asked answered w f h in
      let (w1, out, ran, same) = both-run_patch req last w patch passed in
      let ran_gate : run_patch u (some g) req (or_empty (look req).body) w ≡ (w1, ok out) =
        rw gate at ran in
      (
        canonical,
        out,
        run_patch-HasDecision u g chain client req info (or_empty (look req).body) w w1 out admits
            has known resource watched handles ran_gate,
        decided req (look req).body out,
        decided-IsPatched req (look req).body out,
        rw same at sent,
      )
