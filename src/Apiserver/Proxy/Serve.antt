-- ===== src/Apiserver/Proxy/Serve.antt =====
-- `ServeHTTP` of pkg/apiserver/proxy.go, with what the admission, the mirror and the workspace keep.
use spillway.Prelude.{
  ℕ, ◌&&◌, not, Option, none, some, List, [], if◌then◌else◌, ◌==◌, Result, ok, err,
}
use spillway.Prelude.Text.{Text, bytes, text_key}
use spillway.Prelude.Sets.{Sets}
use spillway.Kcp.Api.{GroupVersion}
use spillway.Apiserver.Request.{Request}
use spillway.Apiserver.Backend.{Backend}
use spillway.Apiserver.OwnerRefs.{OwnerReference, Inspected, inspect_write, check_owner_references}
use spillway.Apiserver.Gate.{Unstructured, GateError}
use spillway.Apiserver.Gate.Run.{run}
use spillway.Apiserver.Gate.Patches.{PatchDecision, run_patch}
use spillway.Apiserver.Mirror.{NamespaceMirror, mirrors_namespace, ensure}
use spillway.Apiserver.Proxy.{
  canonical_path, writes_object, ResourceProxy, Refusal, not_canonical, re_encoding, bad_body,
  bad_owners, not_admitted, Served, restored, deadline_of, send,
}

-- What the object at hand says of its owners.
abbrev pub owners_of :
    {Object : Type 0}
    → (Object → List OwnerReference)
    → Option Object
    → Option (List OwnerReference)
owners_of owners none = none
owners_of owners (some object) = some (owners object)

abbrev pub or_empty : Option Text → Text
or_empty none = []
or_empty (some body) = body

-- The mirror after a call, and the world.
abbrev pub mirrored : {World : Type 0} → NamespaceMirror × World → Option NamespaceMirror × World
mirrored (m, w) = (some m, w)

-- The request after a decision about its patch.
abbrev pub decided : Request → (patch : Option Text) → Option PatchDecision → Request
decided req patch none = restored req patch
decided req patch (some decision) = elim decision.replacement [
  | none ↦ restored req patch
  | some body ↦
      restored (record req { method = bytes "PUT"; content_type = bytes "application/json" })
        (some body)
]

module _ {Object : Type 0} (u : Unstructured Object) where
  -- What is forwarded of a write that is admitted: the object that admission answers, encoded, or
  -- the body that was read.
  unfoldable pub admitted_body :
      Request → (body : Option Text) → Option Object → Result Refusal Request
  admitted_body req body none = ok (restored req body)
  admitted_body req body (some mutated) = elim (u.encode mutated) [
    | none ↦ err re_encoding
    | some encoded ↦ ok (restored req (some encoded))
  ]

module _ {World Object : Type 0} (u : Unstructured Object) (owners : Object → List OwnerReference)
    (parse_group_version : Text → Option GroupVersion) (max_write_bytes : ℕ)
    (backend : Backend World) (encode_namespace : Text → Option Text) ⦃S : Sets Text⦄
    (served : S.Set) (p : ResourceProxy World Object) where
  abbrev pub inspected : Request → Inspected Object
  inspected req = inspect_write u.decode max_write_bytes req.method req.content_type req.body

  abbrev pub after_run :
      Request
      → (body : Option Text) → World × Result GateError (Option Object)
      → World × Result Refusal Request
  after_run req body (w, err reason) = (w, err (not_admitted reason))
  after_run req body (w, ok mutated) = (w, admitted_body u req body mutated)

  abbrev pub admit_write : Request → Inspected Object → World → World × Result Refusal Request
  admit_write req i w = elim i.error [
    | some reason ↦ (w, err (bad_body reason))
    | none ↦ elim (check_owner_references parse_group_version served (owners_of owners i.object)) [
      | some reason ↦ (w, err (bad_owners reason))
      | none ↦ after_run req i.body (run u p.admission req i.object w)
    ]
  ]

  -- The inspection of a write, up to the body that is forwarded.
  unfoldable pub write_phase : Request → World → World × Result Refusal Request
  write_phase req w =
      if writes_object req.method then admit_write req (inspected req) w else (w, ok req)

  abbrev pub after_run_patch :
      Request
      → (patch : Option Text) → World × Result GateError (Option PatchDecision)
      → World × Result Refusal Request
  after_run_patch req patch (w, err reason) = (w, err (not_admitted reason))
  after_run_patch req patch (w, ok decision) = (w, ok (decided req patch decision))

  abbrev pub admit_patch : Request → Inspected Object → World → World × Result Refusal Request
  admit_patch req i w = elim i.error [
    | some reason ↦ (w, err (bad_body reason))
    | none ↦ after_run_patch req i.body (run_patch u p.admission req (or_empty i.body) w)
  ]

  -- The admission of a patch, with which the request may become another one.
  unfoldable pub patch_phase : Request → World → World × Result Refusal Request
  patch_phase req w =
      if req.method == bytes "PATCH" then admit_patch req (inspected req) w else (w, ok req)

  -- Both phases, of which the first one that refuses decides.
  abbrev pub then_patch : World × Result Refusal Request → World × Result Refusal Request
  then_patch (w, err reason) = (w, err reason)
  then_patch (w, ok req) = patch_phase req w

  -- The namespace of a write, where the mirror is asked for.
  unfoldable pub mirror_phase :
      Request → (asked answered : ℕ) → World → Option NamespaceMirror × World
  mirror_phase req asked answered w = elim p.namespaces [
    | none ↦ (none, w)
    | some m ↦ elim req.info [
      | none ↦ (some m, w)
      | some info ↦
          if mirrors_namespace req.method && info.is_resource_request
          then mirrored (ensure backend encode_namespace m info.namespace asked answered w)
          else (some m, w)
    ]
  ]

  abbrev pub finish_served :
      (asked answered : ℕ) (deadline : Option ℕ) → World × Result Refusal Request → Served World
  finish_served asked answered deadline (w, err reason) = record {
    namespaces = p.namespaces;
    world = w;
    answer = err reason;
  }
  finish_served asked answered deadline (w, ok req) =
      let (namespaces, last) = mirror_phase req asked answered w in
      record { namespaces = namespaces; world = last; answer = send p req deadline }

  -- p.ServeHTTP(w, req), at the times the mirror reads if it is asked
  unfoldable pub serve_http : Request → (asked answered : ℕ) → World → Served World
  serve_http req asked answered w =
      if not (canonical_path req.path)
      then record { namespaces = p.namespaces; world = w; answer = err not_canonical }
      else finish_served asked answered (deadline_of p req) (then_patch (write_phase req w))
