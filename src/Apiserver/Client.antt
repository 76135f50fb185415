-- ===== src/Apiserver/Client.antt =====
-- `backendClient` of pkg/apiserver/backendclient.go: the requests that spillway makes of a workspace
-- on its own behalf. The transport below is an argument, with what it reads and changes.
pub mod DryRun
mod Tests
use spillway.Prelude.{
  ℕ, zero, suc, eqb, Bool, true, false, ◌&&◌, ◌||◌, not, Option, none, some, List, [], ◌∷◌, ◌++◌,
  if◌then◌else◌, Result, ok, err, Comparable, ◌==◌,
}
use spillway.Prelude.Text.{Text, bytes, text_key}
use spillway.Apiserver.Backend.{Backend, BackendError, status_error, no_response, Values}
use spillway.Apiserver.OwnerRefs.{take}
use spillway.Apiserver.Paths.{join_two}

-- A request for the transport: the labels stand for the request info that `do` puts in the context.
pub record ClientRequest : Type 0 where
  pub method : Text
  pub path : Text
  pub query : Option Values
  pub accept : Text
  pub content_type : Option Text
  pub body : Option Text
  pub label_resource : Text
  pub label_verb : Text

-- The status, and what reading the body to its end gives, or none where that fails.
pub record Response : Type 0 where
  pub status_code : ℕ
  pub payload : Option Text

-- The values of one key, in their order.
unfoldable pub values_of : (key : Text) → Values → List Text
values_of wanted [] = []
values_of wanted ((key, value) ∷ rest) =
    let more = values_of wanted rest in if key == wanted then value ∷ more else more

-- query.Set(key, value)
unfoldable pub without_key : (key : Text) → Values → Values
without_key gone [] = []
without_key gone ((key, value) ∷ rest) =
    let more = without_key gone rest in if key == gone then more else (key, value) ∷ more

abbrev pub set_value : (key value : Text) → Values → Values
set_value key value query = without_key key query ++ ((key, value) ∷ [])

abbrev pub not_empty : Text → Option Text
not_empty [] = none
not_empty (c ∷ s) = some (c ∷ s)

-- The answer of `do` to a response.
unfoldable pub payload_of : (max_spec_bytes : ℕ) → Response → Result BackendError Text
payload_of max_spec_bytes response = elim response.payload [
  | none ↦ err no_response
  | some payload ↦
      if not (eqb response.status_code 200) && not (eqb response.status_code 201)
      then err (status_error response.status_code)
      else ok (take max_spec_bytes payload)
]

module _ {World : Type 0} (transport : ClientRequest → World → World × Option Response)
    (location_path : Text) (max_spec_bytes : ℕ) where
  abbrev pub answer_of : World × Option Response → World × Result BackendError Text
  answer_of (w, none) = (w, err no_response)
  answer_of (w, some response) = (w, payload_of max_spec_bytes response)

  abbrev pub request_for :
      (method path : Text)
      → Option Values
      → (content_type : Text) → (body : Option Text) → (resource verb : Text) → ClientRequest
  request_for method path query content_type body resource verb = record {
    method = method;
    path = join_two location_path path;
    query = query;
    accept = bytes "application/json";
    content_type = not_empty content_type;
    body = body;
    label_resource = resource;
    label_verb = verb;
  }

  -- c.do(ctx, method, requestPath, query, contentType, body, resource, verb)
  unfoldable pub do_request :
      (method path : Text)
      → Option Values
      → (content_type : Text) → (body : Option Text) → (resource verb : Text) → World
      → World × Result BackendError Text
  do_request method path query content_type body resource verb w =
      answer_of (transport (request_for method path query content_type body resource verb) w)

  -- c.fetch(ctx, requestPath) and c.fetchSpec(ctx, requestPath)
  abbrev pub fetch_path : (path : Text) → World → World × Result BackendError Text
  fetch_path path w = do_request (bytes "GET") path none [] none (bytes "spillway") (bytes "read") w

  abbrev pub fetch_spec : (path : Text) → World → World × Result BackendError Text
  fetch_spec path w = do_request (bytes "GET") path none [] none (bytes "openapi") (bytes "get") w

  -- c.patchDryRun(ctx, requestPath, caller, contentType, patch)
  abbrev pub dry_run_patch :
      (path : Text)
      → Values
      → (content_type patch : Text) → World
      → World × Result BackendError Text
  dry_run_patch path caller content_type patch w =
      do_request (bytes "PATCH") path (some (set_value (bytes "dryRun") (bytes "All") caller))
        content_type (some patch) (bytes "spillway") (bytes "dryrun") w

  -- c.create(ctx, requestPath, body)
  abbrev pub create_object : (path body : Text) → World → World × Result BackendError Text
  create_object path body w =
      do_request (bytes "POST") path none (bytes "application/json") (some body) (bytes "spillway")
        (bytes "create") w

  -- The client as admission and the mirror take it.
  abbrev pub backend_client : Backend World
  backend_client = record {
    fetch = fetch_path;
    patch_dry_run = dry_run_patch;
    create = create_object;
  }
