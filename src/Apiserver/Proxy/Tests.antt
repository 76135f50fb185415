-- ===== src/Apiserver/Proxy/Tests.antt =====
-- An update and a patch through the proxy, and paths.
use spillway.Prelude.{
  ok, err, ◌≡◌, refl, true, false, Option, none, some, List, [], ◌∷◌, if◌then◌else◌,
}
use spillway.Prelude.Text.{Text, bytes, text_key, text_eq, has_prefix, has_suffix}
use spillway.Prelude.ListSets.{list_sets}
use spillway.Kcp.Api.{GroupVersion}
use spillway.Apiserver.Request.{Request}
use spillway.Apiserver.OwnerRefs.{
  OwnerReference, contains_text, inspect_body, inspect_write, check_owner_references,
}
use spillway.Apiserver.AdmissionMatch.{update, matches_write}
use spillway.Apiserver.Gate.{no_kind, first_kind, old_object, is_dry_run}
use spillway.Apiserver.Gate.Run.{mutate, validate_edited, to_forward, run_kind, run_operation, run}
use spillway.Apiserver.Gate.Patches.{decide, run_resolved, run_patch}
use spillway.Apiserver.Gate.Samples.{Log, texts, marking, logging, gate, ann, info_of, request_of}
use spillway.Apiserver.Paths.{split, join_path, resolve, walk, finish, clean, join_two}
use spillway.Apiserver.Proxy.{
  not_admitted, ResourceProxy, Forwarded, trim_slash, canonical_path, forwarded, send, get_value,
  restored,
}
use spillway.Apiserver.Proxy.Serve.{
  admitted_body, write_phase, patch_phase, mirror_phase, serve_http,
}
use spillway.Apiserver.Proxy.Canonical.{
  IsWithin, IsCanonical, canonical_path-IsCanonical, canonical_path-IsWithin,
}
use spillway.Apiserver.Proxy.Mediated.{serve, serve_http-HasVerdict}
use spillway.Apiserver.Proxy.Patched.{serve_http-HasDecision}

code : Unit {0}
unfolding run run_operation run_kind to_forward mutate validate_edited old_object first_kind
    is_dry_run run_patch run_resolved decide matches_write text_eq has_prefix has_suffix
    contains_text inspect_body inspect_write check_owner_references split join_path resolve walk
    finish clean join_two trim_slash canonical_path send get_value admitted_body write_phase
    patch_phase mirror_phase serve_http
code = tt

abbrev parse : Text → Option GroupVersion
parse text = some (record { group = text; version = bytes "v1" })

abbrev outside : OwnerReference
outside = record { api_version = bytes "apps"; kind = bytes "Deployment"; name = bytes "d" }

-- An object that mentions ownerReferences has an owner outside of the workspace.
abbrev owners : Text → List OwnerReference
owners object = if contains_text object (bytes "ownerReferences") then outside ∷ [] else []

abbrev groups : List Text
groups = bytes "example.com" ∷ []

abbrev proxy : ResourceProxy Log Text
proxy = record {
  location = record { scheme = bytes "https"; host = bytes "kcp"; path = bytes "/clusters/root" };
  impersonate = true;
  timeout = 30000;
  admission = some gate;
  namespaces = none;
}

abbrev put : Request
put = request_of (bytes "PUT") (bytes "update") (bytes "x")

abbrev patch : Request
patch = request_of (bytes "PATCH") (bytes "patch") (bytes "x")

abbrev sent_put : Forwarded
sent_put = forwarded proxy (restored put (some (bytes "x!"))) (some 30000) (some ann)

abbrev sent_patch : Forwarded
sent_patch =
    forwarded proxy (restored (record patch { method = bytes "PUT" }) (some (bytes "x!@7")))
      (some 30000) (some ann)

addresses : sent_put.location.path ≡ bytes "/clusters/root/w"
unfolding code
addresses = refl

climbs : canonical_path (bytes "/apis/../x") ≡ false
unfolding code
climbs = refl

doubles : canonical_path (bytes "//") ≡ true
unfolding code
doubles = refl

-- An owner outside of the workspace, named in a body that is written.
owned :
    (serve texts owners parse 100 logging
      (λ name. some name)
      groups
      proxy
      (request_of (bytes "PUT") (bytes "update") (bytes "ownerReferences"))
      0
      0
      []).world
    ≡ []
unfolding code
owned = refl

-- The owners of a patch are not looked at.
owned_patch :
    (serve texts owners parse 100 logging
      (λ name. some name)
      groups
      proxy
      (request_of (bytes "PATCH") (bytes "patch") (bytes "ownerReferences"))
      0
      0
      []).world
    ≡ bytes "/w" ∷ bytes "/w" ∷ []
unfolding code
owned_patch = refl

abbrev yaml : Request
yaml = record put { content_type = bytes "application/yaml" }

-- An update in YAML is sent with its body unread, though the chain saw no object of it.
unread :
    (serve texts owners parse 100 logging (λ name. some name) groups proxy yaml 0 0 []).answer
    ≡ ok (forwarded proxy yaml (some 30000) (some ann))
unfolding code
unread = refl

-- A create whose body does not decode is refused, and not by kcp.
refuses_undecoded :
    (serve
      (record texts { decode = λ body. none })
      owners
      parse
      100
      logging
      (λ name. some name)
      groups
      proxy
      (request_of (bytes "POST") (bytes "create") (bytes "x"))
      0
      0
      []).answer
    ≡ err (not_admitted no_kind)
unfolding code
refuses_undecoded = refl

serve_http-HasVerdict_example : canonical_path (bytes "/w") ≡ true
unfolding code
serve_http-HasVerdict_example =
    (serve_http-HasVerdict texts owners parse 100 logging (λ name. some name) groups proxy gate
      marking put (info_of (bytes "update")) update 0 0 [] sent_put refl refl refl refl refl refl
      refl).0

serve_http-HasDecision_example : canonical_path (bytes "/w") ≡ true
unfolding code
serve_http-HasDecision_example =
    (serve_http-HasDecision texts owners parse 100 logging (λ name. some name) groups proxy gate
      marking logging patch (info_of (bytes "patch")) 0 0 [] sent_patch refl refl refl refl refl
      refl refl refl refl).0

canonical_path-IsCanonical_example : IsCanonical (bytes "apis/x/")
unfolding code
canonical_path-IsCanonical_example = (canonical_path-IsCanonical (bytes "apis/x/")).0 refl

canonical_path-IsWithin_example :
    IsWithin (bytes "/clusters/root") (bytes "apis/x/") (bytes "/clusters/root/apis/x")
unfolding code
canonical_path-IsWithin_example =
    canonical_path-IsWithin (bytes "clusters/root") (bytes "apis/x/") (refl, (refl, tt)) refl
