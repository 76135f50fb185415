-- ===== src/Apiserver/Proxy/Mediated.antt =====
-- What has happened to a request when `ServeHTTP` of pkg/apiserver/proxy.go sends it to kcp.
use spillway.Prelude.{
  ℕ, ltb, ◌&&◌, not, if◌then◌else◌, ◌≡◌, ◌⊎◌, refl, true, false, Option, none, some, List,
  Bool-cases, Option-cases, inl, inr, ◌==◌, Result, ok, err,
}
use spillway.Prelude.Text.{Text, bytes, text_key}
use spillway.Prelude.Sets.{Sets}
use spillway.Kcp.Api.{GroupVersion}
use spillway.Apiserver.Request.{Request, RequestInfo}
use spillway.Apiserver.Backend.{Backend}
use spillway.Apiserver.OwnerRefs.{OwnerReference, Inspected, inspect_write, check_owner_references}
use spillway.Apiserver.AdmissionMatch.{Operation, matches_write}
use spillway.Apiserver.Gate.{
  Unstructured, Chain, AdmissionGate, GateError, resource_for, operation_for, is_delete,
}
use spillway.Apiserver.Gate.Run.{run}
use spillway.Apiserver.Gate.Admitted.{HasVerdict, subject_of, run-HasVerdict}
use spillway.Apiserver.Proxy.{
  canonical_path, writes_object, ResourceProxy, Refusal, Forwarded, Served, deadline_of, is_watch,
}
use spillway.Apiserver.Proxy.Serve.{
  owners_of, admitted_body, after_run, admit_write, write_phase, patch_phase, then_patch,
  finish_served, serve_http,
}
use spillway.Apiserver.Proxy.Sent.{
  IsSent, send-IsSent, admitted_body-IsWritten, HasOwnersInside, owners_of-HasOwnersInside,
  IsWritten, method-IsWritten, writes_object_lem,
}

module _ {World Object : Type 0} (u : Unstructured Object) (owners : Object → List OwnerReference)
    (parse_group_version : Text → Option GroupVersion) (max_write_bytes : ℕ)
    (backend : Backend World) (encode_namespace : Text → Option Text) ⦃S : Sets Text⦄
    (served : S.Set) (p : ResourceProxy World Object) where
  abbrev look : Request → Inspected Object
  look req = inspect_write u.decode max_write_bytes req.method req.content_type req.body

  abbrev writes : Request → World → World × Result Refusal Request
  writes req w =
      write_phase u owners parse_group_version max_write_bytes backend encode_namespace served p req
        w

  abbrev patches : World × Result Refusal Request → World × Result Refusal Request
  patches r =
      then_patch u owners parse_group_version max_write_bytes backend encode_namespace served p r

  abbrev pub serve : Request → (asked answered : ℕ) → World → Served World
  serve req asked answered w =
      serve_http u owners parse_group_version max_write_bytes backend encode_namespace served p req
        asked answered w

  abbrev finish : (asked answered : ℕ) → Option ℕ → World × Result Refusal Request → Served World
  finish asked answered deadline r =
      finish_served u owners parse_group_version max_write_bytes backend encode_namespace served p
        asked answered deadline r

  finish-IsSent :
      (asked answered : ℕ) (deadline : Option ℕ) (r : World × Result Refusal Request)
      (f : Forwarded)
      → (finish asked answered deadline r).answer ≡ ok f
      → (req : Request) × (r.1 ≡ ok req) × IsSent p req deadline f
  finish-IsSent asked answered deadline (w, err reason) f h = absurd (cc (h))
  finish-IsSent asked answered deadline (w, ok req) f h =
      (req, refl, send-IsSent p req deadline f h)

  pub serve-IsSent :
      (req : Request) (asked answered : ℕ) (w : World) (f : Forwarded)
      → (serve req asked answered w).answer ≡ ok f
      → (canonical_path req.path ≡ true)
        × (last : Request) × ((patches (writes req w)).1 ≡ ok last)
        × (IsSent p last (deadline_of p req) f)
  unfolding serve_http
  serve-IsSent req asked answered w f h = elim (Bool-cases (canonical_path req.path)) [
    | inr other ↦ absurd (cc (rw (other, serve_http) at h))
    | inl canonical ↦
        let e : (finish asked answered (deadline_of p req) (patches (writes req w))).answer ≡ ok f =
          rw (canonical, serve_http) at h in
        let (last, passed, sent) =
          finish-IsSent asked answered (deadline_of p req) (patches (writes req w)) f e in
        (canonical, last, passed, sent)
  ]

  -- What is to be forwarded of a write that neither check refuses.
  abbrev pub PassesChecks : Request → World → Request → Type 0
  PassesChecks req w last =
      (w1 : World) × (out : Option Object) × (check_owner_references parse_group_version served
          (owners_of owners (look req).object)
        ≡ none)
      × (run u p.admission req (look req).object w ≡ (w1, ok out))
      × (admitted_body u req (look req).body out ≡ ok last)

  after_run_inv :
      (req last : Request) (body : Option Text) (r : World × Result GateError (Option Object))
      → (after_run u owners parse_group_version max_write_bytes backend encode_namespace served p
          req body r).1
        ≡ ok last
      → (w1 : World) × (out : Option Object) × (r ≡ (w1, ok out))
        × (admitted_body u req body out ≡ ok last)
  after_run_inv req last body (w, err reason) h = absurd (cc (h))
  after_run_inv req last body (w, ok out) h = (w, out, refl, h)

  writes-PassesChecks :
      (req last : Request) (w : World)
      → writes_object req.method ≡ true
      → (writes req w).1 ≡ ok last
      → PassesChecks req w last
  unfolding write_phase
  writes-PassesChecks req last w write h = elim (Option-cases (look req).error) [
    | inr (reason, bad) ↦ absurd (cc (rw (write, bad, write_phase) at h))
    | inl good ↦
        elim (Option-cases (
          check_owner_references parse_group_version served (owners_of owners (look req).object))) [
            | inr (reason, outside) ↦
                absurd (cc (rw (write, good, outside, write_phase, admit_write) at h))
            | inl inside ↦
                let e = rw (write, good, inside, write_phase, admit_write) at h in
                let (w1, out, ran, body) =
                  after_run_inv req last (look req).body (run u p.admission req (look req).object w)
                    e in
                (w1, out, inside, ran, body)
          ]
  ]

  method-writes :
      (req : Request) (w : World)
      → writes_object req.method ≡ true
      → (mid : Request) → (writes req w).1 ≡ ok mid
      → mid.method ≡ req.method
  method-writes req w write mid h =
      let (_, out, _, _, body) = writes-PassesChecks req mid w write h in
      method-IsWritten u req mid (look req).body out
        (admitted_body-IsWritten u req mid (look req).body out body)

  -- A write is not changed by the handling of patches.
  patches-write :
      (req last : Request) (r : World × Result Refusal Request)
      → writes_object req.method ≡ true
      → ((mid : Request) → r.1 ≡ ok mid → mid.method ≡ req.method)
      → (patches r).1 ≡ ok last
      → r.1 ≡ ok last
  unfolding patch_phase
  patches-write req last (w1, err reason) write same h = absurd (cc (h))
  patches-write req last (w1, ok mid) write same h =
      let other : (mid.method == bytes "PATCH") ≡ false =
        rw (same mid refl) (writes_object_lem req.method write) in
      rw (other, patch_phase) at h

  -- A request that writes an object, in a proxy with a gate that has a chain, of a resource and
  -- with a verb that is admitted, is sent to kcp only if its path passes, each of its owners that
  -- are read is of a group that is served from the workspace, and it is a delete that nothing the
  -- matcher knows would see or the chain has admitted it. Its body is then the encoding of the
  -- object that the chain left of the one that was read, if it left one; where no object was read,
  -- the chain was shown none, and the body is sent as it was read, or as it came where it was not
  -- read. The request is otherwise sent as it came: to its path below that of the workspace, with
  -- its query, without the caller's credentials, for the caller if the proxy impersonates, and with
  -- the proxy's timeout if it has one and the request is no watch.
  pub serve_http-HasVerdict :
      (g : AdmissionGate World Object) (chain : Chain World Object) (req : Request)
      (info : RequestInfo) (operation : Operation) (asked answered : ℕ) (w : World) (f : Forwarded)
      → p.admission ≡ some g
      → g.admit ≡ some chain
      → req.info ≡ some info
      → info.is_resource_request ≡ true
      → operation_for info.verb ≡ some operation
      → writes_object req.method ≡ true
      → (serve req asked answered w).answer ≡ ok f
      → (canonical_path req.path ≡ true)
        × (last : Request) × (out : Option Object) × HasOwnersInside owners parse_group_version
            served
            (look req).object
        × (((is_delete operation ≡ true)
              × (matches_write g.matcher (resource_for info) operation ≡ false)
              × (out ≡ none))
            ⊎ HasVerdict u chain req info operation (subject_of operation (look req).object) out)
        × IsWritten u req (look req).body out last
        × IsSent p last (if ltb 0 p.timeout && not (is_watch req) then some p.timeout else none) f
  serve_http-HasVerdict g chain req info operation asked answered w f gate admits known resource
        handled write h =
      let (canonical, last, passed, sent) = serve-IsSent req asked answered w f h in
      let written =
        patches-write req last (writes req w) write (method-writes req w write) passed in
      let (w1, out, inside, ran, body) = writes-PassesChecks req last w write written in
      let ran_gate : run u (some g) req (look req).object w ≡ (w1, ok out) = rw gate at ran in
      (
        canonical,
        last,
        out,
        owners_of-HasOwnersInside owners parse_group_version served (look req).object inside,
        run-HasVerdict u g chain req info operation (look req).object w w1 out admits known resource
            handled ran_gate,
        admitted_body-IsWritten u req last (look req).body out body,
        sent,
      )
