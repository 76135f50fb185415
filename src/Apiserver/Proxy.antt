-- ===== src/Apiserver/Proxy.antt =====
-- `resourceProxy` of pkg/apiserver/proxy.go: what becomes of a request for an offloaded group, up to
-- the request that the upgrade-aware handler of the API machinery sends to kcp.
pub mod Serve
pub mod Canonical
pub mod Sent
pub mod Mediated
pub mod Patched
mod Tests
use spillway.Prelude.{
  ℕ, ltb, eqb, Bool, true, false, ◌&&◌, ◌||◌, not, Option, none, some, List, [], ◌∷◌, if◌then◌else◌,
  Comparable, ◌==◌, Result, ok, err,
}
use spillway.Prelude.Text.{Text, bytes, text_key, has_prefix}
use spillway.Prelude.Sets.{Sets}
use spillway.Kcp.Api.{GroupVersion}
use spillway.Apiserver.Request.{Request, RequestInfo, User, Body, nil, content}
use spillway.Apiserver.Backend.{Backend, Values}
use spillway.Apiserver.OwnerRefs.{
  OwnerReference, InspectError, OwnerError, Inspected, inspect_write, check_owner_references,
}
use spillway.Apiserver.Gate.{Unstructured, AdmissionGate, GateError}
use spillway.Apiserver.Gate.Run.{run}
use spillway.Apiserver.Gate.Patches.{PatchDecision, run_patch}
use spillway.Apiserver.Mirror.{NamespaceMirror, mirrors_namespace, ensure}
use spillway.Apiserver.Paths.{clean, join_two}

-- strings.TrimSuffix(s, "/")
unfoldable pub trim_slash : Text → Text
trim_slash [] = []
trim_slash (c ∷ []) = if eqb c b'/' then [] else c ∷ []
trim_slash (c ∷ d ∷ s) = c ∷ trim_slash (d ∷ s)

-- canonicalPath(requestPath)
unfoldable pub canonical_path : Text → Bool
canonical_path request_path =
    let trimmed = trim_slash request_path in
    if trimmed == [] then request_path == bytes "/" else clean trimmed == trimmed

-- writesObject(req), of the method
abbrev pub writes_object : (method : Text) → Bool
writes_object method = method == bytes "POST" || method == bytes "PUT" || method == bytes "DELETE"

-- query.Get(key), which is empty for a key that is not there
unfoldable pub get_value : (key : Text) → Values → Text
get_value wanted [] = []
get_value wanted ((key, value) ∷ rest) =
    let later = get_value wanted rest in if key == wanted then value else later

-- isWatch(req)
abbrev pub is_watch : Request → Bool
is_watch req = elim req.info [
  | some info ↦ info.verb == bytes "watch"
  | none ↦
      get_value (bytes "watch") req.query == bytes "true"
      || get_value (bytes "watch") req.query == bytes "1"
]

-- The URL of a workspace, of which the path selects it.
pub record Location : Type 0 where
  pub scheme : Text
  pub host : Text
  pub path : Text

pub record ResourceProxy (World Object : Type 0) : Type 0 where
  pub location : Location
  pub impersonate : Bool
  pub timeout : ℕ
  pub admission : Option (AdmissionGate World Object)
  pub namespaces : Option NamespaceMirror

pub data Refusal : Type 0 where
  not_canonical re_encoding outside_workspace no_caller : Refusal
  bad_body : InspectError → Refusal
  bad_owners : OwnerError → Refusal
  not_admitted : GateError → Refusal

-- The request that is sent to kcp: its deadline, if it has one, and whom it impersonates.
pub record Forwarded : Type 0 where
  pub location : Location
  pub query : Values
  pub request : Request
  pub deadline : Option ℕ
  pub impersonated : Option User

-- What is left of a call, and its answer.
pub record Served (World : Type 0) : Type 0 where
  pub namespaces : Option NamespaceMirror
  pub world : World
  pub answer : Result Refusal Forwarded

abbrev pub restored : Request → Option Text → Request
restored req none = req
restored req (some body) = record req { body = content body }

module _ {World Object : Type 0} (p : ResourceProxy World Object) where
  -- p.targetFor(req)
  abbrev pub target_for : Request → Location
  target_for req = record p.location { path = join_two p.location.path req.path }

  abbrev pub deadline_of : Request → Option ℕ
  deadline_of req = if ltb 0 p.timeout && not (is_watch req) then some p.timeout else none

  abbrev pub forwarded : Request → (deadline : Option ℕ) → Option User → Forwarded
  forwarded req deadline impersonated = record {
    location = target_for req;
    query = req.query;
    request = record req { authorization = none };
    deadline = deadline;
    impersonated = impersonated;
  }

  -- The end of `ServeHTTP`, from the target on.
  unfoldable pub send : Request → (deadline : Option ℕ) → Result Refusal Forwarded
  send req deadline =
      let target = target_for req in
      if not (has_prefix target.path p.location.path)
      then err outside_workspace
      else if not p.impersonate
      then ok (forwarded req deadline none)
      else elim req.user [
        | none ↦ err no_caller
        | some caller ↦ ok (forwarded req deadline (some caller))
      ]
